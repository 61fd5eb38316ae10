-- ===== src/Auth/Registration.antt =====
-- What a registration and the calls on invitations and users do to the tables.
use kohaku_river.Common.{
  ℕ, ◌≡◌, refl, sym, subst, ◌≢◌, ◌⊎◌, inl, inr, Bool, true, not, ◌&&◌, Option, none, some, arith,
  String, ◌==◌, nat_key, string_key, pair_key, Dict, put, Bool-cases, Option-cases, eq_of_same,
}
use kohaku_river.Common.Result.{Result, ok, err, Result-cases, ok-injective, err-ne-ok}
use kohaku_river.Common.{find_item, find_item-Item, Item}
use kohaku_river.Tasks.Control.{HttpError, bad_request, unavailable, conflict}
use kohaku_river.Auth.{User, Invitation, Db, is_valid}
use kohaku_river.Auth.Access.{HostConfig}
use kohaku_river.Auth.Accounts.{
  RegisterRequest, register, registration_role, user_named, new_user, new_session, use_if_any,
}

-- Where the role of a registration comes from.
abbrev pub Granted : HostConfig → ℕ → String → Db → String → Option (ℕ × Invitation) → Type 0
Granted config now token db role none =
    (config.admin_register_secret ≢ "") × (token ≡ config.admin_register_secret) × (role ≡ "admin")
Granted config now token db role (some (id, invitation)) =
    Item id invitation db.invitations
    × (invitation.token ≡ token)
    × (is_valid now invitation ≡ true)
    × (role ≡ invitation.role)

abbrev Registration : Type 0
Registration = Result HttpError (String × Option (ℕ × Invitation))

registration_role-Granted :
    (config : HostConfig) (now : ℕ) (token : String) (db : Db)
    (r : String × Option (ℕ × Invitation))
    → registration_role config now token db ≡ ok r
    → Granted config now token db r.0 r.1
registration_role-Granted config now token db r h =
    let by_secret =
      not (config.admin_register_secret == "") && token == config.admin_register_secret in
    let test : ℕ → Invitation → Bool = λ id invitation. invitation.token == token in
    let P = λ (x : String × Option (ℕ × Invitation)). Granted config now token db x.0 x.1 in
    elim (Bool-cases by_secret) [
      | inl bootstrap ↦ subst P (ok-injective _ r (rw (registration_role, bootstrap) at h)) (
        λ empty.
            ground
              (arith, bootstrap, string_key.is_same_iff config.admin_register_secret "", empty),
        eq_of_same token config.admin_register_secret (ground (arith, bootstrap)),
        refl,
      )
      | inr invited ↦ elim (Option-cases (find_item test db.invitations)) [
        | inl unknown ↦
            absurd (err-ne-ok bad_request r (rw (registration_role, invited, unknown) at h))
        | inr ((id, invitation), found) ↦ elim (Bool-cases (is_valid now invitation)) [
          | inr used_up ↦
              absurd
                (err-ne-ok bad_request r (rw (registration_role, invited, found, used_up) at h))
          | inl valid ↦
              let (i, same) = find_item-Item test db.invitations id invitation found in
              subst P
                (ok-injective (invitation.role, some (id, invitation)) r
                  (rw (registration_role, invited, found, valid) at h))
                (i, eq_of_same invitation.token token same, valid, refl)
        ]
      ]
    ]

-- A registration changes nothing, or enters the user with the role that was granted.
abbrev pub Entered : HostConfig → ℕ → RegisterRequest → String → ℕ → Db → Db → Type 0
Entered config now request token new_id db db' =
    (role : String) × (invitation : Option (ℕ × Invitation)) × Granted config now token db role
      invitation
    × (user_named request.username db ≡ none)
    × (db'.users ≡ put new_id (new_user request role) db.users)
    × (db'.invitations ≡ (use_if_any now invitation db).invitations)
    × (db'.tokens ≡ db.tokens)

use_if_any-tables :
    (now : ℕ) (invitation : Option (ℕ × Invitation)) (db : Db) (users : Dict ℕ User)
    → ((use_if_any now invitation (record db { users = users })).users ≡ users)
      × ((use_if_any now invitation (record db { users = users })).invitations
          ≡ (use_if_any now invitation db).invitations)
      × ((use_if_any now invitation (record db { users = users })).tokens ≡ db.tokens)
use_if_any-tables now none db users = (refl, refl, refl)
use_if_any-tables now (some (id, invitation)) db users =
    elim (Bool-cases (is_valid now invitation)) [
      | inl valid ↦ rw (use_if_any, valid) (refl, refl, refl)
      | inr used_up ↦ rw (use_if_any, used_up) (refl, refl, refl)
    ]

pub register-cases :
    (config : HostConfig) (now : ℕ) (request : RegisterRequest) (token : String) (new_id : ℕ)
    (session_id : String) (db : Db)
    → ((e : HttpError) × ((register config now request token new_id session_id db).0 ≡ err e)
        × ((register config now request token new_id session_id db).1 ≡ db))
      ⊎ (((register config now request token new_id session_id db).0 ≡ ok new_id)
          × Entered config now request token new_id db
              (register config now request token new_id session_id db).1)
unfolding register
register-cases config now request token new_id session_id db =
    elim (Bool-cases config.auth_enabled) [
      | inr off ↦ inl (unavailable, rw (register, off) refl, rw (register, off) refl)
      | inl on ↦ elim (Result-cases (registration_role config now token db)) [
        | inr (e, failed) ↦ inl (e, rw (register, on, failed) refl, rw (register, on, failed) refl)
        | inl ((role, invitation), role_given) ↦
            elim (Option-cases (user_named request.username db)) [
              | inr (existing, taken) ↦ inl (
                conflict,
                rw (register, on, role_given, taken) refl,
                rw (register, on, role_given, taken) refl,
              )
              | inl free ↦
                  let (users, invitations, tokens) =
                    use_if_any-tables now invitation db
                      (put new_id (new_user request role) db.users) in
                  let result : Result HttpError ℕ × Db = (
                    ok new_id,
                    new_session config now new_id session_id (
                        use_if_any now invitation
                          (record db { users = put new_id (new_user request role) db.users })),
                  ) in
                  let e : register config now request token new_id session_id db ≡ result =
                    rw (register, on, role_given, free) refl in
                  inr (
                    subst (λ x. (x.0 ≡ ok new_id) × Entered config now request token new_id db x.1)
                      (sym e)
                      (
                        refl,
                        (
                          role,
                          invitation,
                          registration_role-Granted config now token db (role, invitation)
                              role_given,
                          free,
                          users,
                          invitations,
                          tokens,
                        ),
                      ))
            ]
      ]
    ]

-- ===== src/Auth/Management.antt =====
-- What the calls on invitations and users do to the tables.
use kohaku_river.Common.{
  ℕ, ◌+◌, ◌*◌, ◌≡◌, refl, sym, subst, ◌⊎◌, inl, inr, true, false, not, ◌&&◌, some, arith, String,
  ◌==◌, nat_key, string_key, pair_key, contains, get, put, del, Bool-cases, Option-cases,
}
use kohaku_river.Common.Result.{Result, ok}
use kohaku_river.Common.Int.{pos}
use kohaku_river.Tasks.Control.{HttpError}
use kohaku_river.Auth.{User, Invitation, Db, CurrentUser, hierarchy, is_at_least}
use kohaku_river.Auth.Accounts.{
  create_invitation, revoke_invitation, UserUpdateRequest, update_user, delete_user, int_eq, hour,
  positive, updated, demotes, disables, names_role,
}

-- A new invitation.
abbrev pub Invited : CurrentUser → ℕ → Db → Db → Type 0
Invited caller new_id db db' =
    (invitation : Invitation) × (db'.users ≡ db.users)
    × (db'.invitations ≡ put new_id invitation db.invitations)
    × (invitation.usage_count ≡ 0)
    × ((caller.user.role ≡ "admin") ⊎ (invitation.role ≡ "viewer"))

invited_role :
    (role invited : String)
    → (not (role == "admin") && not (invited == "viewer")) ≡ false
    → (role ≡ "admin") ⊎ (invited ≡ "viewer")
invited_role role invited h =
    ground (arith, string_key.is_same_iff role "admin", string_key.is_same_iff invited "viewer")

pub create_invitation-cases :
    (now : ℕ) (caller : CurrentUser) (role : String) (max_usage hours new_id : ℕ) (token : String)
    (db : Db)
    → ((create_invitation now caller role max_usage hours new_id token db).1 ≡ db)
      ⊎ Invited caller new_id db
          (create_invitation now caller role max_usage hours new_id token db).1
unfolding create_invitation
create_invitation-cases now caller role max_usage hours new_id token db =
    elim (Bool-cases (is_at_least caller.user.role "operator")) [
      | inr plain ↦ inl (rw (create_invitation, plain) refl)
      | inl operator ↦
          elim (Bool-cases (not (caller.user.role == "admin") && not (role == "viewer"))) [
            | inl beyond ↦ inl (rw (create_invitation, operator, beyond) refl)
            | inr within ↦ elim (Bool-cases (contains role hierarchy)) [
              | inr unknown ↦ inl (rw (create_invitation, operator, within, unknown) refl)
              | inl known ↦
                  let invitation : Invitation = record {
                    token = token;
                    role = role;
                    max_usage = max_usage;
                    usage_count = 0;
                    expires_at = now + hours * hour;
                    created_by = positive caller.id;
                  } in
                  let result : Result HttpError (Unit {0}) × Db =
                    (ok tt, record db { invitations = put new_id invitation db.invitations }) in
                  let e : create_invitation now caller role max_usage hours new_id token db
                      ≡ result =
                    rw (create_invitation, operator, within, known) refl in
                  inr (
                    subst (λ x. Invited caller new_id db x.1) (sym e)
                      (invitation, refl, refl, refl, invited_role caller.user.role role within))
            ]
          ]
    ]

pub revoke_invitation-cases :
    (caller : CurrentUser) (id : ℕ) (db : Db)
    → ((revoke_invitation caller id db).1 ≡ db)
      ⊎ ((revoke_invitation caller id db).1 ≡ record db { invitations = del id db.invitations })
unfolding revoke_invitation
revoke_invitation-cases caller id db = elim (Bool-cases (caller.user.role == "admin")) [
  | inr plain ↦ inl (rw (revoke_invitation, plain) refl)
  | inl admin ↦ elim (Option-cases (get id db.invitations)) [
    | inl missing ↦ inl (rw (revoke_invitation, admin, missing) refl)
    | inr (invitation, found) ↦ inr (rw (revoke_invitation, admin, found) refl)
  ]
]

-- What an update allows on the caller's own row.
abbrev pub Updated : CurrentUser → ℕ → UserUpdateRequest → Db → Db → Type 0
Updated caller id request db db' =
    (user : User) × (get id db.users ≡ some user)
    × (db' ≡ record db { users = put id (updated request user) db.users })
    × ((int_eq (pos id) caller.id && demotes request.role) ≡ false)
    × (names_role request.role ≡ true)
    × ((int_eq (pos id) caller.id && disables request.is_active) ≡ false)

pub update_user-cases :
    (caller : CurrentUser) (id : ℕ) (request : UserUpdateRequest) (db : Db)
    → ((update_user caller id request db).1 ≡ db)
      ⊎ Updated caller id request db (update_user caller id request db).1
unfolding update_user
update_user-cases caller id request db = elim (Option-cases (get id db.users)) [
  | inl missing ↦ inl (rw (update_user, missing) refl)
  | inr (user, found) ↦ elim (Bool-cases (int_eq (pos id) caller.id && demotes request.role)) [
    | inl demoted ↦ inl (rw (update_user, found, demoted) refl)
    | inr kept ↦ elim (Bool-cases (names_role request.role)) [
      | inr unknown ↦ inl (rw (update_user, found, kept, unknown) refl)
      | inl known ↦ elim (Bool-cases (int_eq (pos id) caller.id && disables request.is_active)) [
        | inl disabled ↦ inl (rw (update_user, found, kept, known, disabled) refl)
        | inr enabled ↦
            let result : Result HttpError User × Db = (
              ok (updated request user),
              record db { users = put id (updated request user) db.users },
            ) in
            let e : update_user caller id request db ≡ result =
              rw (update_user, found, kept, known, enabled) refl in
            inr (
              subst (λ x. Updated caller id request db x.1) (sym e)
                (user, found, refl, kept, known, enabled))
      ]
    ]
  ]
]

pub delete_user-cases :
    (caller : CurrentUser) (id : ℕ) (db : Db)
    → ((delete_user caller id db).1 ≡ db)
      ⊎ ((int_eq (pos id) caller.id ≡ false)
          × ((delete_user caller id db).1 ≡ record db { users = del id db.users }))
unfolding delete_user
delete_user-cases caller id db = elim (Option-cases (get id db.users)) [
  | inl missing ↦ inl (rw (delete_user, missing) refl)
  | inr (user, found) ↦ elim (Bool-cases (int_eq (pos id) caller.id)) [
    | inl self ↦ inl (rw (delete_user, found, self) refl)
    | inr other ↦ inr (other, rw (delete_user, found, other) refl)
  ]
]

-- ===== src/Auth/Escalation.antt =====
-- Callers cannot remove themselves as an admin.
use kohaku_river.Common.{
  ℕ, ◌≡◌, sym, ap, subst, ◌∙◌, ◌≢◌, inl, inr, Bool, true, false, Option, none, some, List, [], ◌∷◌,
  arith, String, ◌==◌, nat_key, string_key, pair_key, contains, Dict, get, put, Bool-cases,
  eq_of_same, get-put, get-del, ℕ_discrete, false-ne-true,
}
use kohaku_river.Common.{All}
use kohaku_river.Common.Int.{ℤ, pos}
use kohaku_river.Auth.{User, Db, is_at_least}
use kohaku_river.Auth.Access.{HostConfig}
use kohaku_river.Auth.Accounts.{new_user, int_eq, updated, demotes, disables, names_role, or_old}
use kohaku_river.Auth.Frames.{optional-Same, login-Same, logout-Same, revoke_token-Same}
use kohaku_river.Auth.Registration.{register-cases}
use kohaku_river.Auth.Management.{
  create_invitation-cases, revoke_invitation-cases, update_user-cases, delete_user-cases,
}
use kohaku_river.Auth.History.{
  Call, authenticates, logs_in, logs_out, registers, creates_token, revokes_token, invites,
  revokes_invitation, updates_user, deletes_user, step, run,
}

abbrev AdminIn : ℕ → Dict ℕ User → Type 0
AdminIn n users =
    (user : User) × (get n users ≡ some user) × (user.role ≡ "admin") × (user.is_active ≡ true)

-- An active admin of the table.
abbrev pub IsAdmin : ℕ → Db → Type 0
IsAdmin n db =
    (user : User) × (get n db.users ≡ some user) × (user.role ≡ "admin") × (user.is_active ≡ true)

-- Only the admin `n` updates or deletes users, and the database gives no new user that id.
abbrev pub IsActedBy : ℕ → Call → Type 0
IsActedBy n (updates_user caller id request) = caller.id ≡ pos n
IsActedBy n (deletes_user caller id) = caller.id ≡ pos n
IsActedBy n (registers now request token new_id session_id) = new_id ≢ n
IsActedBy n call = Unit

put-AdminIn :
    (n id : ℕ) (user : User) (users : Dict ℕ User)
    → (id ≡ n → (user.role ≡ "admin") × (user.is_active ≡ true))
    → AdminIn n users
    → AdminIn n (put id user users)
put-AdminIn n id user users own (u, h, role, active) = elim (ℕ_discrete id n) [
  | yes same ↦ (user, ground (arith, get-put id n user users), (own same).0, (own same).1)
  | no other ↦ (u, ground (arith, get-put id n user users), role, active)
]

own-int_eq : (id n : ℕ) (a : ℤ) → a ≡ pos n → id ≡ n → int_eq (pos id) a ≡ true
own-int_eq id n a e f = subst (λ x. int_eq (pos id) x ≡ true) (sym e) (ground (arith, f))

no_role : ¬ (names_role (some "") ≡ true)
unfolding contains
no_role h = false-ne-true h

own_role :
    (new : Option String) (role : String)
    → demotes new ≡ false
    → names_role new ≡ true
    → role ≡ "admin"
    → or_old new role ≡ "admin"
own_role none role kept named admin = admin
own_role (some new) role kept named admin = elim (Bool-cases (new == "admin")) [
  | inl same ↦ eq_of_same new "admin" same
  | inr other ↦
      let empty : new ≡ "" = ground (arith, other, string_key.is_same_iff new "") in
      absurd (no_role (subst (λ x. names_role (some x) ≡ true) empty named))
]

own_active :
    (new : Option Bool) (active : Bool)
    → disables new ≡ false
    → active ≡ true
    → or_old new active ≡ true
own_active none active kept on = on
own_active (some new) active kept on = ground arith

module _ (hash_token : String → String) (config : HostConfig) where
  step-keeps_IsAdmin :
      (call : Call) (db : Db) (n : ℕ)
      → IsActedBy n call
      → IsAdmin n db
      → IsAdmin n (step hash_token config call db)
  unfolding step
  step-keeps_IsAdmin (authenticates now request) db n own a =
      subst (AdminIn n) (sym (optional-Same hash_token config now request db).0) a
  step-keeps_IsAdmin (logs_in now username verify session_id) db n own a =
      subst (AdminIn n) (sym (login-Same config now username verify session_id db).0) a
  step-keeps_IsAdmin (logs_out session_id) db n own a =
      subst (AdminIn n) (sym (logout-Same session_id db).0) a
  step-keeps_IsAdmin (registers now request token new_id session_id) db n own a =
      elim (register-cases config now request token new_id session_id db) [
        | inl (e, failed, same) ↦ subst (IsAdmin n) (sym same) a
        | inr (done, (role, invitation, granted, free, users, invitations, tokens)) ↦
            subst (AdminIn n) (sym users)
              (put-AdminIn n new_id (new_user request role) db.users (λ e. absurd (own e)) a)
      ]
  step-keeps_IsAdmin (creates_token caller name new_id hash) db n own a = a
  step-keeps_IsAdmin (revokes_token caller token_id) db n own a =
      subst (AdminIn n) (sym (revoke_token-Same caller token_id db).0) a
  step-keeps_IsAdmin (invites now caller role max_usage hours new_id token) db n own a =
      elim (create_invitation-cases now caller role max_usage hours new_id token db) [
        | inl same ↦ subst (IsAdmin n) (sym same) a
        | inr (invitation, users, e, unused, allowed) ↦ subst (AdminIn n) (sym users) a
      ]
  step-keeps_IsAdmin (revokes_invitation caller id) db n own a =
      elim (revoke_invitation-cases caller id db) [
        | inl same ↦ subst (IsAdmin n) (sym same) a
        | inr gone ↦ subst (IsAdmin n) (sym gone) a
      ]
  step-keeps_IsAdmin (updates_user caller id request) db n own (u, h, role, active) =
      elim (Bool-cases (is_at_least caller.user.role "admin")) [
        | inr plain ↦ rw (step, plain) (u, h, role, active)
        | inl admin ↦
            rw (step, admin)
              (elim (update_user-cases caller id request db) [
                | inl same ↦ subst (IsAdmin n) (sym same) (u, h, role, active)
                | inr (user, found, e, kept, known, enabled) ↦ subst (IsAdmin n) (sym e) (
                    put-AdminIn n id (updated request user) db.users
                      (λ f.
                        let self = own-int_eq id n caller.id own f in
                        let row : user ≡ u = ground (arith, f, found, h) in
                        (
                          own_role request.role user.role (ground (arith, kept, self)) known
                              (ap (λ x. x.role) row ∙ role),
                          own_active request.is_active user.is_active
                              (ground (arith, enabled, self)) (ap (λ x. x.is_active) row ∙ active),
                        ))
                      (u, h, role, active))
              ])
      ]
  step-keeps_IsAdmin (deletes_user caller id) db n own (u, h, role, active) =
      elim (Bool-cases (is_at_least caller.user.role "admin")) [
        | inr plain ↦ rw (step, plain) (u, h, role, active)
        | inl admin ↦
            rw (step, admin)
              (elim (delete_user-cases caller id db) [
                | inl same ↦ subst (IsAdmin n) (sym same) (u, h, role, active)
                | inr (other, e) ↦
                    let apart : id ≢ n =
                      λ f. false-ne-true (sym other ∙ own-int_eq id n caller.id own f) in
                    subst (IsAdmin n) (sym e)
                      (u, ground (arith, h, apart, get-del id n db.users), role, active)
              ])
      ]

  -- An active admin who alone updates and deletes users is an active admin after every history, if
  -- the database gives no new user the admin's id: the calls refuse to demote, disable or delete the
  -- caller.
  pub run-keeps_IsAdmin :
      (calls : List Call) (db : Db) (n : ℕ)
      → All (IsActedBy n) calls
      → IsAdmin n db
      → IsAdmin n (run hash_token config calls db)
  unfolding run
  run-keeps_IsAdmin [] db n own a = a
  run-keeps_IsAdmin (call ∷ calls) db n own a =
      run-keeps_IsAdmin calls (step hash_token config call db) n own.1
        (step-keeps_IsAdmin call db n own.0 a)

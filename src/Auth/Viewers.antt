-- ===== src/Auth/Viewers.antt =====
-- No caller raises a role without an admin.
use kohaku_river.Common.{
  ℕ, ◌+◌, ◌≡◌, refl, sym, ap, subst, ◌∙◌, ◌≢◌, ◌⊎◌, inl, inr, false, Option, none, some, List, [],
  ◌∷◌, arith, String, nat_key, string_key, pair_key, Dict, get, put, Bool-cases, get-put, get-del,
  ℕ_discrete,
}
use kohaku_river.Common.{Unique, put-Unique, del-Unique, Item-get, All}
use kohaku_river.Auth.{User, Invitation, Db, is_valid, is_at_least}
use kohaku_river.Auth.Access.{HostConfig, get_current_user_optional}
use kohaku_river.Auth.Accounts.{
  RegisterRequest, new_user, use_if_any, login, logout, register, revoke_token, create_invitation,
  revoke_invitation,
}
use kohaku_river.Auth.Frames.{Same, optional-Same, login-Same, logout-Same, revoke_token-Same}
use kohaku_river.Auth.Registration.{Granted, register-cases}
use kohaku_river.Auth.Management.{create_invitation-cases, revoke_invitation-cases}
use kohaku_river.Auth.History.{
  Call, authenticates, logs_in, logs_out, registers, creates_token, revokes_token, invites,
  revokes_invitation, updates_user, deletes_user, step, run,
}

-- Every invitation is for viewers, and every user is a viewer or has the role as before.
abbrev pub OnlyViewers : Dict ℕ User → Dict ℕ User → Dict ℕ Invitation → Type 0
OnlyViewers before users invitations =
    Unique invitations
    × ((id : ℕ) (invitation : Invitation)
        → get id invitations ≡ some invitation
        → invitation.role ≡ "viewer")
    × ((id : ℕ) (user : User)
        → get id users ≡ some user
        → (user.role ≡ "viewer")
          ⊎ ((old : User) × (get id before ≡ some old) × (old.role ≡ user.role)))

-- No admin makes the call.
abbrev pub IsWithoutAdmin : Call → Type 0
IsWithoutAdmin (invites now caller role max_usage hours new_id token) = caller.user.role ≢ "admin"
IsWithoutAdmin (updates_user caller id request) = is_at_least caller.user.role "admin" ≡ false
IsWithoutAdmin (deletes_user caller id) = is_at_least caller.user.role "admin" ≡ false
IsWithoutAdmin call = Unit

put-OnlyViewers :
    (before users : Dict ℕ User) (invitations : Dict ℕ Invitation) (id : ℕ) (user : User)
    → user.role ≡ "viewer"
    → OnlyViewers before users invitations
    → OnlyViewers before (put id user users) invitations
put-OnlyViewers before users invitations id user viewer (u, i, o) = (
  u,
  i,
  λ j q h. elim (ℕ_discrete id j) [
    | yes same ↦
        let e : user ≡ q = ground (arith, h, get-put id j user users) in
        inl (sym (ap (λ x. x.role) e) ∙ viewer)
    | no other ↦ o j q (ground (arith, h, get-put id j user users))
  ],
)

invite-OnlyViewers :
    (before users : Dict ℕ User) (invitations : Dict ℕ Invitation) (id : ℕ)
    (invitation : Invitation)
    → invitation.role ≡ "viewer"
    → OnlyViewers before users invitations
    → OnlyViewers before users (put id invitation invitations)
invite-OnlyViewers before users invitations id invitation viewer (u, i, o) = (
  put-Unique id invitation invitations u,
  λ j q h. elim (ℕ_discrete id j) [
    | yes same ↦
        let e : invitation ≡ q = ground (arith, h, get-put id j invitation invitations) in
        sym (ap (λ x. x.role) e) ∙ viewer
    | no other ↦ i j q (ground (arith, h, get-put id j invitation invitations))
  ],
  o,
)

abbrev InvitesViewer : Option (ℕ × Invitation) → Type 0
InvitesViewer none = Unit
InvitesViewer (some (id, invitation)) = invitation.role ≡ "viewer"

use-OnlyViewers :
    (before users : Dict ℕ User) (now : ℕ) (invitation : Option (ℕ × Invitation)) (db : Db)
    → InvitesViewer invitation
    → OnlyViewers before users db.invitations
    → OnlyViewers before users (use_if_any now invitation db).invitations
use-OnlyViewers before users now none db viewer v = v
use-OnlyViewers before users now (some (id, invitation)) db viewer v =
    elim (Bool-cases (is_valid now invitation)) [
      | inr used_up ↦ rw (use_if_any, used_up) v
      | inl valid ↦
          let used : Invitation = record invitation { usage_count = invitation.usage_count + 1 } in
          let e : (use_if_any now (some (id, invitation)) db).invitations
              ≡ put id used db.invitations =
            rw (use_if_any, valid) refl in
          subst (OnlyViewers before users) (sym e)
            (invite-OnlyViewers before users db.invitations id used viewer v)
    ]

module _ (hash_token : String → String) (config : HostConfig) where
  registered-OnlyViewers :
      (before : Dict ℕ User) (now : ℕ) (request : RegisterRequest) (token : String) (new_id : ℕ)
      (role : String) (invitation : Option (ℕ × Invitation)) (db : Db)
      → config.admin_register_secret ≡ ""
      → Granted config now token db role invitation
      → OnlyViewers before db.users db.invitations
      → OnlyViewers before
          (put new_id (new_user request role) db.users)
          (use_if_any now invitation db).invitations
  registered-OnlyViewers before now request token new_id role none db closed g v =
      absurd (g.0 closed)
  registered-OnlyViewers before now request token new_id role (some (id, q)) db closed g v =
      let viewer = v.1 id q (Item-get id q db.invitations v.0 g.0) in
      use-OnlyViewers before (put new_id (new_user request role) db.users) now (some (id, q)) db
        viewer
        (put-OnlyViewers before db.users db.invitations new_id (new_user request role)
          (g.3 ∙ viewer) v)

  Same-OnlyViewers :
      (before : Dict ℕ User) (db db' : Db)
      → Same db db'
      → OnlyViewers before db.users db.invitations
      → OnlyViewers before db'.users db'.invitations
  Same-OnlyViewers before db db' (users, invitations) v =
      subst (λ i. OnlyViewers before db'.users i) (sym invitations)
        (subst (λ u. OnlyViewers before u db.invitations) (sym users) v)

  step-OnlyViewers :
      (before : Dict ℕ User) (call : Call) (db : Db)
      → config.admin_register_secret ≡ ""
      → IsWithoutAdmin call
      → OnlyViewers before db.users db.invitations
      → OnlyViewers before
          (step hash_token config call db).users
          (step hash_token config call db).invitations
  unfolding step
  step-OnlyViewers before (authenticates now request) db closed plain v =
      Same-OnlyViewers before db (get_current_user_optional hash_token config now request db).1
        (optional-Same hash_token config now request db) v
  step-OnlyViewers before (logs_in now username verify session_id) db closed plain v =
      Same-OnlyViewers before db (login config now username verify session_id db).1
        (login-Same config now username verify session_id db) v
  step-OnlyViewers before (logs_out session_id) db closed plain v =
      Same-OnlyViewers before db (logout session_id db) (logout-Same session_id db) v
  step-OnlyViewers before (registers now request token new_id session_id) db closed plain v =
      let db' = (register config now request token new_id session_id db).1 in
      elim (register-cases config now request token new_id session_id db) [
        | inl (e, failed, same) ↦
            Same-OnlyViewers before db db' (ap (λ x. x.users) same, ap (λ x. x.invitations) same) v
        | inr (done, (role, invitation, granted, free, users, invitations, tokens)) ↦
            subst (λ i. OnlyViewers before db'.users i) (sym invitations)
              (subst (λ u. OnlyViewers before u (use_if_any now invitation db).invitations)
                (sym users)
                (registered-OnlyViewers before now request token new_id role invitation db closed
                  granted v))
      ]
  step-OnlyViewers before (creates_token caller name new_id hash) db closed plain v = v
  step-OnlyViewers before (revokes_token caller token_id) db closed plain v =
      Same-OnlyViewers before db (revoke_token caller token_id db).1
        (revoke_token-Same caller token_id db) v
  step-OnlyViewers before (invites now caller role max_usage hours new_id token) db closed plain v =
      let db' = (create_invitation now caller role max_usage hours new_id token db).1 in
      elim (create_invitation-cases now caller role max_usage hours new_id token db) [
        | inl same ↦
            Same-OnlyViewers before db db' (ap (λ x. x.users) same, ap (λ x. x.invitations) same) v
        | inr (invitation, users, e, unused, inl admin) ↦ absurd (plain admin)
        | inr (invitation, users, e, unused, inr viewer) ↦
            subst (λ i. OnlyViewers before db'.users i) (sym e)
              (subst (λ u. OnlyViewers before u (put new_id invitation db.invitations)) (sym users)
                (invite-OnlyViewers before db.users db.invitations new_id invitation viewer v))
      ]
  step-OnlyViewers before (revokes_invitation caller id) db closed plain (u, i, o) =
      let db' = (revoke_invitation caller id db).1 in
      elim (revoke_invitation-cases caller id db) [
        | inl same ↦
            Same-OnlyViewers before db db' (ap (λ x. x.users) same, ap (λ x. x.invitations) same)
              (u, i, o)
        | inr gone ↦
            subst (λ x. OnlyViewers before x.users x.invitations) (sym gone)
              (
                del-Unique id db.invitations u,
                λ j q h. i j q (ground (arith, h, get-del id j db.invitations)),
                o,
              )
      ]
  step-OnlyViewers before (updates_user caller id request) db closed plain v = rw (step, plain) v
  step-OnlyViewers before (deletes_user caller id) db closed plain v = rw (step, plain) v

  -- Without an admin among the callers, without the bootstrap secret, and with invitations for viewers
  -- only, every history leaves each user a viewer or with the role that the user had before.
  pub run-OnlyViewers :
      (calls : List Call) (before : Dict ℕ User) (db : Db)
      → config.admin_register_secret ≡ ""
      → All IsWithoutAdmin calls
      → OnlyViewers before db.users db.invitations
      → OnlyViewers before
          (run hash_token config calls db).users
          (run hash_token config calls db).invitations
  unfolding run
  run-OnlyViewers [] before db closed plain v = v
  run-OnlyViewers (call ∷ calls) before db closed plain v =
      run-OnlyViewers calls before (step hash_token config call db) closed plain.1
        (step-OnlyViewers before call db closed plain.0 v)

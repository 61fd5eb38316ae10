-- ===== src/Auth/Invitations.antt =====
-- An invitation is used at most as often as it allows.
use kohaku_river.Common.{
  ℕ, ◌+◌, ◌≤◌, ◌≡◌, refl, sym, subst, inl, inr, Option, none, some, arith, String, nat_key,
  string_key, pair_key, Dict, get, put, Bool-cases, get-put, get-del, ℕ_discrete,
}
use kohaku_river.Auth.{Invitation, Db, is_valid, is_at_least}
use kohaku_river.Auth.Access.{HostConfig}
use kohaku_river.Auth.Accounts.{use_if_any}
use kohaku_river.Auth.Frames.{optional-Same, login-Same, logout-Same, revoke_token-Same}
use kohaku_river.Auth.Registration.{register-cases}
use kohaku_river.Auth.Management.{
  create_invitation-cases, revoke_invitation-cases, update_user-cases, delete_user-cases,
}
use kohaku_river.Auth.History.{
  Call, authenticates, logs_in, logs_out, registers, creates_token, revokes_token, invites,
  revokes_invitation, updates_user, deletes_user, step,
}

abbrev pub AllWithin : Dict ℕ Invitation → Type 0
AllWithin invitations =
    (id : ℕ) (invitation : Invitation)
    → get id invitations ≡ some invitation
    → invitation.usage_count ≤ invitation.max_usage

abbrev pub IsBounded : Db → Type 0
IsBounded db = AllWithin db.invitations

put-AllWithin :
    (d : Dict ℕ Invitation) (id : ℕ) (invitation : Invitation)
    → invitation.usage_count ≤ invitation.max_usage
    → AllWithin d
    → AllWithin (put id invitation d)
put-AllWithin d id invitation few b j q h = elim (ℕ_discrete id j) [
  | yes same ↦ ground (arith, few, h, get-put id j invitation d)
  | no other ↦ b j q (ground (arith, h, get-put id j invitation d))
]

use-AllWithin :
    (now : ℕ) (invitation : Option (ℕ × Invitation)) (db : Db)
    → AllWithin db.invitations
    → AllWithin (use_if_any now invitation db).invitations
use-AllWithin now none db b = b
use-AllWithin now (some (id, invitation)) db b = elim (Bool-cases (is_valid now invitation)) [
  | inr used_up ↦ rw (use_if_any, used_up) b
  | inl valid ↦
      let used : Invitation = record invitation { usage_count = invitation.usage_count + 1 } in
      let e : (use_if_any now (some (id, invitation)) db).invitations ≡ put id used db.invitations =
        rw (use_if_any, valid) refl in
      subst AllWithin (sym e) (put-AllWithin db.invitations id used (ground (arith, valid)) b)
]

module _ (hash_token : String → String) (config : HostConfig) where
  -- Every call keeps the bound, whoever makes it and whether it succeeds or not: no invitation is
  -- used more often than it allows.
  pub step-IsBounded :
      (call : Call) (db : Db) → IsBounded db → IsBounded (step hash_token config call db)
  unfolding step
  step-IsBounded (authenticates now request) db b =
      subst AllWithin (sym (optional-Same hash_token config now request db).1) b
  step-IsBounded (logs_in now username verify session_id) db b =
      subst AllWithin (sym (login-Same config now username verify session_id db).1) b
  step-IsBounded (logs_out session_id) db b = subst AllWithin (sym (logout-Same session_id db).1) b
  step-IsBounded (registers now request token new_id session_id) db b =
      elim (register-cases config now request token new_id session_id db) [
        | inl (e, failed, same) ↦ subst IsBounded (sym same) b
        | inr (done, (role, invitation, granted, free, users, invitations, tokens)) ↦
            subst AllWithin (sym invitations) (use-AllWithin now invitation db b)
      ]
  step-IsBounded (creates_token caller name new_id hash) db b = b
  step-IsBounded (revokes_token caller token_id) db b =
      subst AllWithin (sym (revoke_token-Same caller token_id db).1) b
  step-IsBounded (invites now caller role max_usage hours new_id token) db b =
      elim (create_invitation-cases now caller role max_usage hours new_id token db) [
        | inl same ↦ subst IsBounded (sym same) b
        | inr (invitation, users, e, unused, allowed) ↦
            subst AllWithin (sym e)
              (put-AllWithin db.invitations new_id invitation (omega (arith, unused)) b)
      ]
  step-IsBounded (revokes_invitation caller id) db b = elim (revoke_invitation-cases caller id db) [
    | inl same ↦ subst IsBounded (sym same) b
    | inr gone ↦
        subst IsBounded (sym gone) (λ j q h. b j q (ground (arith, h, get-del id j db.invitations)))
  ]
  step-IsBounded (updates_user caller id request) db b =
      elim (Bool-cases (is_at_least caller.user.role "admin")) [
        | inr plain ↦ rw (step, plain) b
        | inl admin ↦
            rw (step, admin)
              (elim (update_user-cases caller id request db) [
                | inl same ↦ subst IsBounded (sym same) b
                | inr (user, found, e, kept, known, enabled) ↦ subst IsBounded (sym e) b
              ])
      ]
  step-IsBounded (deletes_user caller id) db b =
      elim (Bool-cases (is_at_least caller.user.role "admin")) [
        | inr plain ↦ rw (step, plain) b
        | inl admin ↦
            rw (step, admin)
              (elim (delete_user-cases caller id db) [
                | inl same ↦ subst IsBounded (sym same) b
                | inr (other, e) ↦ subst IsBounded (sym e) b
              ])
      ]

-- ===== src/Auth/History.antt =====
-- Histories of calls of the endpoints of src/kohakuriver/host/auth/routes.py, each with its guard.
use kohaku_river.Common.{
  ℕ, Bool, Option, List, [], ◌∷◌, String, if◌then◌else◌, nat_key, string_key, pair_key,
}
use kohaku_river.Auth.{Db, CurrentUser, is_at_least}
use kohaku_river.Auth.Access.{HostConfig, Request, get_current_user_optional}
use kohaku_river.Auth.Accounts.{
  login, logout, RegisterRequest, register, create_token, revoke_token, create_invitation,
  revoke_invitation, UserUpdateRequest, update_user, delete_user,
}

pub data Call : Type 0 where
  authenticates : ℕ → Request → Call
  logs_in : ℕ → String → (String → Bool) → String → Call
  logs_out : Option String → Call
  registers : ℕ → RegisterRequest → String → ℕ → String → Call
  creates_token : CurrentUser → String → ℕ → String → Call
  revokes_token : CurrentUser → ℕ → Call
  invites : ℕ → CurrentUser → String → ℕ → ℕ → ℕ → String → Call
  revokes_invitation : CurrentUser → ℕ → Call
  updates_user : CurrentUser → ℕ → UserUpdateRequest → Call
  deletes_user : CurrentUser → ℕ → Call

module _ (hash_token : String → String) (config : HostConfig) where
  -- The last two have the guard `require_admin`.
  unfoldable pub step : Call → Db → Db
  step (authenticates now request) db =
      (get_current_user_optional hash_token config now request db).1
  step (logs_in now username verify session_id) db =
      (login config now username verify session_id db).1
  step (logs_out session_id) db = logout session_id db
  step (registers now request token new_id session_id) db =
      (register config now request token new_id session_id db).1
  step (creates_token caller name new_id hash) db = create_token caller name new_id hash db
  step (revokes_token caller token_id) db = (revoke_token caller token_id db).1
  step (invites now caller role max_usage expires_hours new_id token) db =
      (create_invitation now caller role max_usage expires_hours new_id token db).1
  step (revokes_invitation caller invitation_id) db = (revoke_invitation caller invitation_id db).1
  step (updates_user caller user_id request) db =
      if is_at_least caller.user.role "admin" then (update_user caller user_id request db).1 else db
  step (deletes_user caller user_id) db =
      if is_at_least caller.user.role "admin" then (delete_user caller user_id db).1 else db

  unfoldable pub run : List Call → Db → Db
  unfolding step
  run [] db = db
  run (call ∷ calls) db = run calls (step call db)

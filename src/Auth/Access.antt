-- ===== src/Auth/Access.antt =====
-- src/kohakuriver/host/auth/dependencies.py: who calls an endpoint, and whether the role suffices. The hash
-- of a token, SHA3-512, is a parameter.
use kohaku_river.Common.{
  ℕ, Bool, true, false, not, ◌&&◌, Option, none, some, String, if◌then◌else◌, ◌==◌, nat_key,
  string_key, pair_key, get, put, del,
}
use kohaku_river.Common.Result.{Result, ok, err}
use Prim.Native.String.{len, slice}
use text.Mathlib.Text.{starts_with}
use kohaku_river.Common.{find_item}
use kohaku_river.Common.Int.{ℤ, pos, negsuc}
use kohaku_river.Tasks.Control.{HttpError, unauthorized, forbidden, unavailable}
use kohaku_river.Auth.{Db, CurrentUser, is_expired, is_at_least}

pub record HostConfig : Type 0 where
  pub auth_enabled : Bool
  pub admin_secret : String
  pub admin_register_secret : String
  pub session_expire_hours : ℕ

-- The header `X-Admin-Token`, the header `Authorization` and the session cookie.
pub record Request : Type 0 where
  pub admin_token : Option String
  pub authorization : Option String
  pub session_id : Option String

-- A missing text and an empty one are falsy.
abbrev pub truthy : Option String → Option String
truthy none = none
truthy (some text) = if text == "" then none else some text

abbrev pub create_mock_admin_user : CurrentUser
create_mock_admin_user = record {
  id = pos 0;
  user = record {
    username = "_system";
    display_name = some "System (Auth Disabled)";
    password_hash = "";
    is_active = true;
    role = "admin";
  };
}

-- The id is -1.
abbrev pub create_anonymous_user : CurrentUser
create_anonymous_user = record {
  id = negsuc 0;
  user = record {
    username = "_anonymous";
    display_name = some "Anonymous";
    password_hash = "";
    is_active = true;
    role = "anony";
  };
}

-- The row behind a foreign key; a missing one raises, which the callers turn into `None`.
abbrev pub active_user : Db → ℕ → Option CurrentUser
active_user db id = elim (get id db.users) [
  | none ↦ none
  | some user ↦ if user.is_active then some (record { id = pos id; user = user }) else none
]

unfoldable pub get_user_from_session : ℕ → String → Db → Option CurrentUser × Db
unfolding get del
get_user_from_session now session_id db = elim (get session_id db.sessions) [
  | none ↦ (none, db)
  | some session ↦
      if is_expired now session
      then (none, record db { sessions = del session_id db.sessions })
      else (active_user db session.user, db)
]

-- `authorization[7:]`
abbrev pub extract_bearer_token : Option String → Option String
extract_bearer_token authorization = elim (truthy authorization) [
  | none ↦ none
  | some header ↦ if starts_with header "Bearer " then some (slice header 7 (len header)) else none
]

abbrev pub is_admin_request : HostConfig → Request → Bool
is_admin_request config request = elim (truthy request.admin_token) [
  | none ↦ false
  | some admin_token ↦ not (config.admin_secret == "") && admin_token == config.admin_secret
]

module _ (hash_token : String → String) where
  -- A token of a pseudo user has no row behind it.
  abbrev pub token_user : Db → ℤ → Option CurrentUser
  token_user db (pos id) = active_user db id
  token_user db (negsuc n) = none

  unfoldable pub get_user_from_token : ℕ → String → Db → Option CurrentUser × Db
  unfolding find_item put
  get_user_from_token now token db =
      elim (find_item (λ id row. row.token_hash == hash_token token) db.tokens) [
        | none ↦ (none, db)
        | some (id, row) ↦ elim (token_user db row.user) [
          | none ↦ (none, db)
          | some user ↦ (
            some user,
            record db { tokens = put id (record row { last_used = some now }) db.tokens },
          )
        ]
      ]

  -- The two credentials in their order; the first one may delete its session.
  abbrev pub from_session : ℕ → Request → Db → Option CurrentUser × Db
  from_session now request db = elim (truthy request.session_id) [
    | none ↦ (none, db)
    | some session_id ↦ get_user_from_session now session_id db
  ]

  abbrev pub from_token : ℕ → Request → Db → Option CurrentUser × Db
  from_token now request db = elim (truthy (extract_bearer_token request.authorization)) [
    | none ↦ (none, db)
    | some token ↦ get_user_from_token now token db
  ]

  unfoldable pub get_current_user_optional : HostConfig → ℕ → Request → Db → CurrentUser × Db
  unfolding get_user_from_session get_user_from_token
  get_current_user_optional config now request db =
      if not config.auth_enabled
      then (create_mock_admin_user, db)
      else if is_admin_request config request
      then (create_mock_admin_user, db)
      else let (by_session, db') = from_session now request db in
        let (by_token, db'') = from_token now request db' in
        elim by_session [
          | some user ↦ (user, db')
          | none ↦ elim by_token [ some user ↦ (user, db'') | none ↦ (create_anonymous_user, db'') ]
        ]

  -- The test for `None` after the call has no counterpart: the call returns a user.
  unfoldable pub get_current_user :
      HostConfig → ℕ → Request → Db → Result HttpError CurrentUser × Db
  unfolding get_current_user_optional
  get_current_user config now request db =
      if not config.auth_enabled
      then (err unavailable, db)
      else let (user, db') = get_current_user_optional config now request db in (ok user, db')

  unfoldable pub require_role :
      String → HostConfig → ℕ → Request → Db → Result HttpError CurrentUser × Db
  unfolding get_current_user_optional is_at_least
  require_role required_role config now request db =
      let (user, db') = get_current_user_optional config now request db in
      if not (is_at_least user.user.role required_role)
      then if user.user.role == "anony" then (err unauthorized, db') else (err forbidden, db')
      else (ok user, db')

abbrev pub check_admin_token : HostConfig → Request → Bool
check_admin_token config request = is_admin_request config request

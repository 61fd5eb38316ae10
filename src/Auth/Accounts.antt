-- ===== src/Auth/Accounts.antt =====
-- src/kohakuriver/host/auth/routes.py: accounts, sessions, tokens and invitations. What bcrypt, the random
-- generators and SQLite answer comes in as arguments: the verification and the hash of a password, the
-- session id or token that was drawn, and the id of a new row.
use kohaku_river.Common.{
  ℕ, zero, suc, ◌+◌, ◌*◌, Bool, true, false, not, ◌&&◌, Option, none, some, String, if◌then◌else◌,
  ◌==◌, nat_key, string_key, pair_key, contains, get, put, del,
}
use kohaku_river.Common.Result.{Result, ok, err}
use kohaku_river.Common.{find_item}
use kohaku_river.Common.Int.{ℤ, pos, negsuc}
use kohaku_river.Tasks.Control.{
  HttpError, bad_request, unauthorized, forbidden, not_found, conflict, unavailable,
}
use kohaku_river.Auth.{
  User, Invitation, Db, CurrentUser, hierarchy, is_at_least, is_valid, use_invitation,
}
use kohaku_river.Auth.Access.{HostConfig, truthy}

-- 60 minutes of 60 seconds, in microseconds.
abbrev pub hour : ℕ
hour = 60 * 60 * 1_000_000

abbrev pub new_session : HostConfig → ℕ → ℕ → String → Db → Db
new_session config now id session_id db = record db {
  sessions =
      put session_id (record { user = id; expires_at = now + config.session_expire_hours * hour })
        db.sessions;
}

abbrev pub user_named : String → Db → Option (ℕ × User)
user_named username db = find_item (λ id user. user.username == username) db.users

-- `verify` is `verify_password(request.password, _)`.
unfoldable pub login :
    HostConfig → ℕ → String → (String → Bool) → String → Db → Result HttpError ℕ × Db
unfolding find_item put
login config now username verify session_id db =
    if not config.auth_enabled then (err unavailable, db) else elim (user_named username db) [
      | none ↦ (err unauthorized, db)
      | some (id, user) ↦
          if not (verify user.password_hash)
          then (err unauthorized, db)
          else if not user.is_active
          then (err forbidden, db)
          else (ok id, new_session config now id session_id db)
    ]

unfoldable pub logout : Option String → Db → Db
unfolding del
logout session_id db = elim (truthy session_id) [
  | none ↦ db
  | some cookie ↦ record db { sessions = del cookie db.sessions }
]

-- The role for a registration: that of the admin's secret, or of the invitation, which comes with it.
abbrev pub registration_role :
    HostConfig → ℕ → String → Db → Result HttpError (String × Option (ℕ × Invitation))
registration_role config now token db =
    if not (config.admin_register_secret == "") && token == config.admin_register_secret
    then ok ("admin", none)
    else elim (find_item (λ id invitation. invitation.token == token) db.invitations) [
      | none ↦ err bad_request
      | some (id, invitation) ↦
          if not (is_valid now invitation)
          then err bad_request
          else ok (invitation.role, some (id, invitation))
    ]

pub record RegisterRequest : Type 0 where
  pub username : String
  pub display_name : Option String
  -- `hash_password(request.password)`
  pub password_hash : String

abbrev pub or_username : Option String → String → Option String
or_username display_name username = elim (truthy display_name) [
  | none ↦ some username
  | some name ↦ some name
]

abbrev pub new_user : RegisterRequest → String → User
new_user request role = record {
  username = request.username;
  display_name = or_username request.display_name request.username;
  password_hash = request.password_hash;
  is_active = true;
  role = role;
}

-- `invitation.use()`
abbrev pub use_if_any : ℕ → Option (ℕ × Invitation) → Db → Db
use_if_any now none db = db
use_if_any now (some (id, invitation)) db = (use_invitation now id invitation db).1

unfoldable pub register :
    HostConfig → ℕ → RegisterRequest → String → ℕ → String → Db → Result HttpError ℕ × Db
unfolding find_item put
register config now request token new_id session_id db =
    if not config.auth_enabled
    then (err unavailable, db)
    else elim (registration_role config now token db) [
      | err e ↦ (err e, db)
      | ok (role, invitation) ↦ elim (user_named request.username db) [
        | some existing ↦ (err conflict, db)
        | none ↦
            let created : Db = record db { users = put new_id (new_user request role) db.users } in
            (
              ok new_id,
              new_session config now new_id session_id (use_if_any now invitation created),
            )
      ]
    ]

-- `hash` is that of the token that was drawn.
abbrev pub create_token : CurrentUser → String → ℕ → String → Db → Db
create_token current_user name new_id hash db = record db {
  tokens =
      put new_id
        (record { user = current_user.id; token_hash = hash; name = name; last_used = none })
        db.tokens;
}

abbrev pub int_eq : ℤ → ℤ → Bool
int_eq (pos a) (pos b) = a == b
int_eq (pos a) (negsuc b) = false
int_eq (negsuc a) (pos b) = false
int_eq (negsuc a) (negsuc b) = a == b

unfoldable pub revoke_token : CurrentUser → ℕ → Db → Result HttpError (Unit {0}) × Db
unfolding get del
revoke_token current_user token_id db = elim (get token_id db.tokens) [
  | none ↦ (err not_found, db)
  | some token ↦
      if not (int_eq token.user current_user.id)
      then (err not_found, db)
      else (ok tt, record db { tokens = del token_id db.tokens })
]

-- The id of the inviter, if it is a row's: `current_user.id > 0`.
abbrev pub positive : ℤ → Option ℤ
positive (pos zero) = none
positive (pos (suc n)) = some (pos (suc n))
positive (negsuc n) = none

-- The group of an invitation is left out; `max_usage` is at least 1.
unfoldable pub create_invitation :
    ℕ → CurrentUser → String → ℕ → ℕ → ℕ → String → Db → Result HttpError (Unit {0}) × Db
unfolding contains is_at_least put
create_invitation now current_user role max_usage expires_hours new_id token db =
    if not (is_at_least current_user.user.role "operator")
    then (err forbidden, db)
    else if not (current_user.user.role == "admin") && not (role == "viewer")
    then (err forbidden, db)
    else if not (contains role hierarchy)
    then (err bad_request, db)
    else (
      ok tt,
      record db {
        invitations =
            put new_id
              (record {
                token = token;
                role = role;
                max_usage = max_usage;
                usage_count = 0;
                expires_at = now + expires_hours * hour;
                created_by = positive current_user.id;
              })
              db.invitations;
      },
    )

unfoldable pub revoke_invitation : CurrentUser → ℕ → Db → Result HttpError (Unit {0}) × Db
unfolding get del
revoke_invitation current_user invitation_id db =
    if not (current_user.user.role == "admin")
    then (err forbidden, db)
    else elim (get invitation_id db.invitations) [
      | none ↦ (err not_found, db)
      | some invitation ↦ (ok tt, record db { invitations = del invitation_id db.invitations })
    ]

pub record UserUpdateRequest : Type 0 where
  pub display_name : Option String
  pub role : Option String
  pub is_active : Option Bool

abbrev pub or_old {ℓ} : {A : Type ℓ} → Option A → A → A
or_old none old = old
or_old (some new) old = new

-- `request.role and request.role != ADMIN`
abbrev pub demotes : Option String → Bool
demotes none = false
demotes (some role) = not (role == "") && not (role == "admin")

abbrev pub names_role : Option String → Bool
names_role none = true
names_role (some role) = contains role hierarchy

abbrev pub disables : Option Bool → Bool
disables none = false
disables (some is_active) = not is_active

abbrev pub updated : UserUpdateRequest → User → User
updated request user = record user {
  display_name = elim request.display_name [ none ↦ user.display_name | some name ↦ some name ];
  role = or_old request.role user.role;
  is_active = or_old request.is_active user.is_active;
}

-- The caller passed the guard for admins.
unfoldable pub update_user : CurrentUser → ℕ → UserUpdateRequest → Db → Result HttpError User × Db
unfolding get put contains
update_user admin_user user_id request db = elim (get user_id db.users) [
  | none ↦ (err not_found, db)
  | some user ↦
      let is_self = int_eq (pos user_id) admin_user.id in
      if is_self && demotes request.role
      then (err bad_request, db)
      else if not (names_role request.role)
      then (err bad_request, db)
      else if is_self && disables request.is_active
      then (err bad_request, db)
      else let user' = updated request user in
        (ok user', record db { users = put user_id user' db.users })
]

unfoldable pub delete_user : CurrentUser → ℕ → Db → Result HttpError (Unit {0}) × Db
unfolding get del
delete_user admin_user user_id db = elim (get user_id db.users) [
  | none ↦ (err not_found, db)
  | some user ↦
      if int_eq (pos user_id) admin_user.id
      then (err bad_request, db)
      else (ok tt, record db { users = del user_id db.users })
]

-- ===== src/Auth.antt =====
-- src/kohakuriver/db/auth.py: users, sessions, API tokens and invitations, each table with the key that
-- its rows are looked up by or deleted by. `datetime.now()` is an argument, in microseconds. The foreign
-- keys are not enforced by SQLite here, so the deletion of a row leaves the rows that refer to it.
pub mod Roles
pub mod Access
pub mod Accounts
pub mod Guards
pub mod History
pub mod Frames
pub mod Registration
pub mod Management
pub mod Invitations
pub mod Escalation
pub mod Viewers
pub mod Succession
mod Tests
use kohaku_river.Common.{
  ℕ, zero, suc, ◌+◌, ◌-◌, ◌*◌, ◌/◌, ◌%◌, ◌^◌, ◌≤◌, ◌<◌, ◌≡◌, refl, sym, ap, subst, ◌∙◌, ◌≢◌, ◌⊎◌,
  inl, inr, Bool, true, false, not, ◌&&◌, ◌||◌, Option, none, some, List, [], ◌∷◌, ◌++◌, map, arith,
  String, if◌then◌else◌, ltb, leb, ◌==◌, nat_key, string_key, pair_key, length, get_elem?, take,
  keep, contains, Dict, get, put, del, Bool-cases, Option-cases, Key, eq_of_same, same_refl,
  get-put, get-del,
}
use kohaku_river.Common.Result.{Result, ok, err, ◌>>=◌, ◌>>◌, require, require_some, Result-cases}
use kohaku_river.Common.Int.{ℤ, pos, negsuc}

-- `UserRole._HIERARCHY`
abbrev pub hierarchy : List String
hierarchy = "anony" ∷ "viewer" ∷ "user" ∷ "operator" ∷ "admin" ∷ []

-- `xs.index(x)`, which raises where it is `none`.
abbrev pub index_from : ℕ → String → List String → Option ℕ
index_from i x [] = none
index_from i x (y ∷ ys) = if y == x then some i else index_from (i + 1) x ys

unfoldable pub is_at_least : String → String → Bool
is_at_least user_role required_role = elim (index_from 0 user_role hierarchy) [
  | none ↦ false
  | some user_level ↦ elim (index_from 0 required_role hierarchy) [
    | none ↦ false
    | some required_level ↦ leb required_level user_level
  ]
]

pub record User : Type 0 where
  pub username : String
  pub display_name : Option String
  pub password_hash : String
  pub is_active : Bool
  pub role : String

-- `sessions.user` is the id of the user.
pub record Session : Type 0 where
  pub user : ℕ
  pub expires_at : ℕ

pub record Token : Type 0 where
  pub user : ℤ
  pub token_hash : String
  pub name : String
  pub last_used : Option ℕ

pub record Invitation : Type 0 where
  pub token : String
  pub role : String
  pub max_usage : ℕ
  pub usage_count : ℕ
  pub expires_at : ℕ
  pub created_by : Option ℤ

-- The tables, with the ids of the rows or, for sessions, the session ids.
pub record Db : Type 0 where
  pub users : Dict ℕ User
  pub sessions : Dict String Session
  pub tokens : Dict ℕ Token
  pub invitations : Dict ℕ Invitation

-- The caller of an endpoint: the id is 0 for the system and -1 for the anonymous user.
pub record CurrentUser : Type 0 where
  pub id : ℤ
  pub user : User

abbrev pub is_expired : ℕ → Session → Bool
is_expired now session = ltb session.expires_at now

-- `is_valid`
abbrev pub is_valid : ℕ → Invitation → Bool
is_valid now invitation =
    not (ltb invitation.expires_at now) && ltb invitation.usage_count invitation.max_usage

-- `use`: the row is saved only if the invitation is valid.
abbrev pub use_invitation : ℕ → ℕ → Invitation → Db → Bool × Db
use_invitation now id invitation db =
    if is_valid now invitation
    then (
      true,
      record db {
        invitations =
            put id (record invitation { usage_count = invitation.usage_count + 1 }) db.invitations;
      },
    )
    else (false, db)

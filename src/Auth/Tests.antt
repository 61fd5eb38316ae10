-- ===== src/Auth/Tests.antt =====
-- Users, tokens and invitations, and the theorems about them there.
use kohaku_river.Common.{
  ℕ, ◌≤◌, ◌≡◌, refl, sym, ap, subst, ◌≢◌, inr, true, false, none, some, List, [], ◌∷◌, arith,
  String, ◌==◌, nat_key, string_key, pair_key, get, put, del, false-ne-true,
}
use kohaku_river.Common.Result.{ok}
use kohaku_river.Common.{find_item}
use kohaku_river.Common.Int.{pos}
use kohaku_river.Auth.{User, Invitation, Db, CurrentUser, is_at_least}
use kohaku_river.Auth.Access.{
  HostConfig, Request, get_user_from_token, require_role, get_current_user_optional,
  get_user_from_session,
}
use kohaku_river.Auth.Accounts.{RegisterRequest, new_user, register, delete_user}
use kohaku_river.Auth.Guards.{Guarded, require_role-Guarded}
use kohaku_river.Auth.History.{Call, registers, invites, updates_user, deletes_user, step, run}
use kohaku_river.Auth.Invitations.{IsBounded, step-IsBounded}
use kohaku_river.Auth.Escalation.{IsAdmin, run-keeps_IsAdmin}
use kohaku_river.Auth.Viewers.{OnlyViewers, run-OnlyViewers}
use kohaku_river.Auth.Succession.{get_user_from_token-inherited}

abbrev config : HostConfig
config = record {
  auth_enabled = true;
  admin_secret = "";
  admin_register_secret = "";
  session_expire_hours = 720;
}

-- A stand-in for SHA3-512.
abbrev hash : String → String
hash token = token

abbrev ada : User
ada = record {
  username = "ada";
  display_name = some "Ada";
  password_hash = "x";
  is_active = true;
  role = "admin";
}

abbrev bob : User
bob = record ada { username = "bob"; role = "user" }

abbrev guest : Invitation
guest = record {
  token = "come in";
  role = "viewer";
  max_usage = 2;
  usage_count = 1;
  expires_at = 900;
  created_by = some (pos 1);
}

abbrev db : Db
db = record {
  users = (1, ada) ∷ (2, bob) ∷ [];
  sessions = ("s1", record { user = 2; expires_at = 500 }) ∷ [];
  tokens = (1, record { user = pos 2; token_hash = "t"; name = "laptop"; last_used = none }) ∷ [];
  invitations = (1, guest) ∷ [];
}

abbrev with_session : Request
with_session = record { admin_token = none; authorization = none; session_id = some "s1" }

abbrev with_nothing : Request
with_nothing = record { admin_token = none; authorization = none; session_id = some "" }

abbrev admin : CurrentUser
admin = record { id = pos 1; user = ada }

abbrev newcomer : RegisterRequest
newcomer = record { username = "eve"; display_name = none; password_hash = "y" }

bob-passes :
    (require_role hash "user" config 100 with_session db).0 ≡ ok (record { id = pos 2; user = bob })
unfolding require_role get is_at_least get_current_user_optional get_user_from_session
bob-passes = refl

anonymous-low : is_at_least "anony" "user" ≡ false
unfolding is_at_least
anonymous-low = refl

require_role-Guarded_example :
    Guarded hash "user" config 100 with_session db
      (require_role hash "user" config 100 with_session db).0
require_role-Guarded_example =
    require_role-Guarded hash "user" config 100 with_session db refl refl anonymous-low

the_invitation : (id : ℕ) (q : Invitation) → get id db.invitations ≡ some q → q ≡ guest
unfolding get
the_invitation id q h = ground arith

db-IsBounded : IsBounded db
db-IsBounded id q h =
    subst (λ x. x.usage_count ≤ x.max_usage) (sym (the_invitation id q h)) (omega arith)

step-IsBounded_example : IsBounded (step hash config (registers 100 newcomer "come in" 3 "s2") db)
step-IsBounded_example =
    step-IsBounded hash config (registers 100 newcomer "come in" 3 "s2") db db-IsBounded

-- The admin deletes bob, and is refused when she would demote herself.
abbrev calls : List Call
calls =
    deletes_user admin 2
    ∷ updates_user admin 1 (record { display_name = none; role = some "viewer"; is_active = none })
    ∷ registers 100 newcomer "come in" 2 "s2"
    ∷ []

db-IsAdmin : IsAdmin 1 db
unfolding get
db-IsAdmin = (ada, refl, refl, refl)

run-keeps_IsAdmin_example : IsAdmin 1 (run hash config calls db)
run-keeps_IsAdmin_example =
    run-keeps_IsAdmin hash config calls db 1 (refl, (refl, ((λ e. omega (arith, e)), tt)))
      db-IsAdmin

db-OnlyViewers : OnlyViewers db.users db.users db.invitations
unfolding get
db-OnlyViewers = (
  (refl, tt),
  λ id q h. ap (λ x. x.role) (the_invitation id q h),
  λ id user h. inr (user, h, refl),
)

abbrev operator : CurrentUser
operator = record { id = pos 2; user = record bob { role = "operator" } }

operator-ne-admin : ◌≢◌ {A = String} "operator" "admin"
operator-ne-admin h = false-ne-true ((string_key.is_same_iff "operator" "admin").1 h)

abbrev plain_calls : List Call
plain_calls =
    invites 100 operator "admin" 1 24 2 "up" ∷ registers 200 newcomer "come in" 3 "s2" ∷ []

run-OnlyViewers_example :
    OnlyViewers db.users
      (run hash config plain_calls db).users
      (run hash config plain_calls db).invitations
run-OnlyViewers_example =
    run-OnlyViewers hash config plain_calls db.users db refl (operator-ne-admin, (tt, tt))
      db-OnlyViewers

-- bob, who has the highest id, is deleted, and the newcomer gets it.
eve-registered : (register config 100 newcomer "come in" 2 "s2" (delete_user admin 2 db).1).0 ≡ ok 2
unfolding register delete_user get find_item put del
eve-registered = refl

bobs_token :
    find_item (λ i r. r.token_hash == hash "t") db.tokens
    ≡ some (1, record { user = pos 2; token_hash = "t"; name = "laptop"; last_used = none })
unfolding find_item
bobs_token = refl

get_user_from_token-inherited_example :
    (role : String) × ((get_user_from_token hash 200 "t"
        (register config 100 newcomer "come in" 2 "s2" (delete_user admin 2 db).1).1).0
      ≡ some (record { id = pos 2; user = new_user newcomer role }))
get_user_from_token-inherited_example =
    get_user_from_token-inherited hash config 100 200 admin 2 1 newcomer "come in" "s2" "t"
      (record { user = pos 2; token_hash = "t"; name = "laptop"; last_used = none }) db refl
      bobs_token eve-registered

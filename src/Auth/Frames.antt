-- ===== src/Auth/Frames.antt =====
-- The calls that touch neither the users nor the invitations.
use kohaku_river.Common.{
  ℕ, ◌≡◌, refl, ◌∙◌, inl, inr, Bool, Option, String, ◌==◌, nat_key, string_key, pair_key, get,
  Bool-cases, Option-cases,
}
use kohaku_river.Common.{find_item}
use kohaku_river.Auth.{Db, CurrentUser, is_expired}
use kohaku_river.Auth.Access.{
  HostConfig, Request, truthy, get_user_from_session, get_user_from_token, from_session, from_token,
  get_current_user_optional, extract_bearer_token, is_admin_request, token_user,
}
use kohaku_river.Auth.Accounts.{login, logout, user_named, revoke_token, int_eq}

abbrev pub Same : Db → Db → Type 0
Same db db' = (db'.users ≡ db.users) × (db'.invitations ≡ db.invitations)

Same-trans : (a b c : Db) → Same a b → Same b c → Same a c
Same-trans a b c (u, i) (u', i') = (u' ∙ u, i' ∙ i)

session-Same :
    (now : ℕ) (session_id : String) (db : Db) → Same db (get_user_from_session now session_id db).1
unfolding get_user_from_session
session-Same now session_id db = elim (Option-cases (get session_id db.sessions)) [
  | inl missing ↦ rw (get_user_from_session, missing) (refl, refl)
  | inr (session, found) ↦ elim (Bool-cases (is_expired now session)) [
    | inl old ↦ rw (get_user_from_session, found, old) (refl, refl)
    | inr fresh ↦ rw (get_user_from_session, found, fresh) (refl, refl)
  ]
]

module _ (hash_token : String → String) where
  token-Same :
      (now : ℕ) (token : String) (db : Db) → Same db (get_user_from_token hash_token now token db).1
  unfolding get_user_from_token
  token-Same now token db =
      elim (Option-cases (find_item (λ id row. row.token_hash == hash_token token) db.tokens)) [
        | inl missing ↦ rw (get_user_from_token, missing) (refl, refl)
        | inr ((id, row), found) ↦ elim (Option-cases (token_user hash_token db row.user)) [
          | inl gone ↦ rw (get_user_from_token, found, gone) (refl, refl)
          | inr (u, here) ↦ rw (get_user_from_token, found, here) (refl, refl)
        ]
      ]

  from_session-Same :
      (now : ℕ) (request : Request) (db : Db) → Same db (from_session hash_token now request db).1
  from_session-Same now request db = elim (Option-cases (truthy request.session_id)) [
    | inl none_given ↦ rw (from_session, none_given) (refl, refl)
    | inr (session_id, given) ↦ rw (from_session, given) (session-Same now session_id db)
  ]

  from_token-Same :
      (now : ℕ) (request : Request) (db : Db) → Same db (from_token hash_token now request db).1
  from_token-Same now request db =
      elim (Option-cases (truthy (extract_bearer_token request.authorization))) [
        | inl none_given ↦ rw (from_token, none_given) (refl, refl)
        | inr (token, given) ↦ rw (from_token, given) (token-Same now token db)
      ]

  pub optional-Same :
      (config : HostConfig) (now : ℕ) (request : Request) (db : Db)
      → Same db (get_current_user_optional hash_token config now request db).1
  unfolding get_current_user_optional
  optional-Same config now request db =
      let db' = (from_session hash_token now request db).1 in
      let s = from_session-Same now request db in
      let t = from_token-Same now request db' in
      let both = Same-trans db db' (from_token hash_token now request db').1 s t in
      elim (Bool-cases config.auth_enabled) [
        | inr off ↦ rw (get_current_user_optional, off) (refl, refl)
        | inl on ↦ elim (Bool-cases (is_admin_request config request)) [
          | inl admin ↦ rw (get_current_user_optional, on, admin) (refl, refl)
          | inr plain ↦ elim (Option-cases (from_session hash_token now request db).0) [
            | inr (u, found) ↦ rw (get_current_user_optional, on, plain, found) s
            | inl no_session ↦ elim (Option-cases (from_token hash_token now request db').0) [
              | inl no_token ↦ rw (get_current_user_optional, on, plain, no_session, no_token) both
              | inr (u, found) ↦ rw (get_current_user_optional, on, plain, no_session, found) both
            ]
          ]
        ]
      ]

pub login-Same :
    (config : HostConfig) (now : ℕ) (username : String) (verify : String → Bool)
    (session_id : String) (db : Db)
    → Same db (login config now username verify session_id db).1
unfolding login
login-Same config now username verify session_id db = elim (Bool-cases config.auth_enabled) [
  | inr off ↦ rw (login, off) (refl, refl)
  | inl on ↦ elim (Option-cases (user_named username db)) [
    | inl nobody ↦ rw (login, on, nobody) (refl, refl)
    | inr ((id, user), found) ↦ elim (Bool-cases (verify user.password_hash)) [
      | inr wrong ↦ rw (login, on, found, wrong) (refl, refl)
      | inl right ↦ elim (Bool-cases user.is_active) [
        | inr disabled ↦ rw (login, on, found, right, disabled) (refl, refl)
        | inl active ↦ rw (login, on, found, right, active) (refl, refl)
      ]
    ]
  ]
]

pub logout-Same : (session_id : Option String) (db : Db) → Same db (logout session_id db)
unfolding logout
logout-Same session_id db = elim (Option-cases (truthy session_id)) [
  | inl none_given ↦ rw (logout, none_given) (refl, refl)
  | inr (cookie, given) ↦ rw (logout, given) (refl, refl)
]

pub revoke_token-Same :
    (caller : CurrentUser) (token_id : ℕ) (db : Db) → Same db (revoke_token caller token_id db).1
unfolding revoke_token
revoke_token-Same caller token_id db = elim (Option-cases (get token_id db.tokens)) [
  | inl missing ↦ rw (revoke_token, missing) (refl, refl)
  | inr (token, found) ↦ elim (Bool-cases (int_eq token.user caller.id)) [
    | inr other ↦ rw (revoke_token, found, other) (refl, refl)
    | inl own ↦ rw (revoke_token, found, own) (refl, refl)
  ]
]

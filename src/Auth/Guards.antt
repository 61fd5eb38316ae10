-- ===== src/Auth/Guards.antt =====
-- What the role guard of an endpoint lets through.
use kohaku_river.Common.{
  ℕ, ◌≡◌, refl, sym, ap, subst, ◌∙◌, ◌⊎◌, inl, inr, Bool, true, false, none, some, String,
  if◌then◌else◌, ◌==◌, nat_key, string_key, pair_key, get, Bool-cases, Option-cases, eq_of_same,
  some-injective, none-ne-some, false-ne-true,
}
use kohaku_river.Common.Result.{Result, ok, err}
use kohaku_river.Common.{find_item, find_item-Item, Item}
use kohaku_river.Common.Int.{ℤ, pos, negsuc}
use kohaku_river.Tasks.Control.{HttpError, unauthorized, forbidden}
use kohaku_river.Auth.{Session, Token, Db, CurrentUser, is_expired, is_at_least}
use kohaku_river.Auth.Access.{
  HostConfig, Request, truthy, create_anonymous_user, active_user, get_user_from_session,
  extract_bearer_token, is_admin_request, token_user, get_user_from_token, from_session, from_token,
  get_current_user_optional, require_role,
}

-- An active row of the table of users.
abbrev pub IsRow : Db → ℕ → CurrentUser → Type 0
IsRow db id caller =
    (caller.id ≡ pos id) × (get id db.users ≡ some caller.user) × (caller.user.is_active ≡ true)

granted :
    (b : Bool) (v u : CurrentUser) → (if b then some v else none) ≡ some u → (b ≡ true) × (v ≡ u)
granted true v u h = (refl, some-injective v u h)
granted false v u h = absurd (none-ne-some u h)

active_user-IsRow :
    (db : Db) (id : ℕ) (u : CurrentUser) → active_user db id ≡ some u → IsRow db id u
active_user-IsRow db id u h = elim (Option-cases (get id db.users)) [
  | inl missing ↦ absurd (none-ne-some u (rw (active_user, missing) at h))
  | inr (user, found) ↦
      let (active, e) =
        granted user.is_active (record { id = pos id; user = user }) u
          (rw (active_user, found) at h) in
      subst (IsRow db id) e (refl, found, active)
]

-- The session of the cookie.
abbrev pub HasSession : ℕ → Request → Db → ℕ → Type 0
HasSession now request db id =
    (session_id : String) × (session : Session) × (truthy request.session_id ≡ some session_id)
    × (get session_id db.sessions ≡ some session)
    × (session.user ≡ id)
    × (is_expired now session ≡ false)

session-IsRow :
    (now : ℕ) (session_id : String) (db : Db) (u : CurrentUser)
    → (get_user_from_session now session_id db).0 ≡ some u
    → (id : ℕ) × (session : Session) × IsRow db id u
      × (get session_id db.sessions ≡ some session)
      × (session.user ≡ id)
      × (is_expired now session ≡ false)
unfolding get_user_from_session
session-IsRow now session_id db u h = elim (Option-cases (get session_id db.sessions)) [
  | inl missing ↦ absurd (none-ne-some u (rw (get_user_from_session, missing) at h))
  | inr (session, found) ↦ elim (Bool-cases (is_expired now session)) [
    | inl old ↦ absurd (none-ne-some u (rw (get_user_from_session, found, old) at h))
    | inr fresh ↦ (
      session.user,
      session,
      active_user-IsRow db session.user u (rw (get_user_from_session, found, fresh) at h),
      found,
      refl,
      fresh,
    )
  ]
]

-- Reading a session leaves the users and the tokens.
session-tables :
    (now : ℕ) (session_id : String) (db : Db)
    → ((get_user_from_session now session_id db).1.users ≡ db.users)
      × ((get_user_from_session now session_id db).1.tokens ≡ db.tokens)
unfolding get_user_from_session
session-tables now session_id db = elim (Option-cases (get session_id db.sessions)) [
  | inl missing ↦ rw (get_user_from_session, missing) (refl, refl)
  | inr (session, found) ↦ elim (Bool-cases (is_expired now session)) [
    | inl old ↦ rw (get_user_from_session, found, old) (refl, refl)
    | inr fresh ↦ rw (get_user_from_session, found, fresh) (refl, refl)
  ]
]

module _ (hash_token : String → String) where
  -- A token row with the hash of the header's token.
  abbrev pub HasToken : Request → Db → ℕ → Type 0
  HasToken request db id =
      (token : String) × (token_id : ℕ) × (row : Token) × (truthy
          (extract_bearer_token request.authorization)
        ≡ some token)
      × Item token_id row db.tokens
      × (row.token_hash ≡ hash_token token)
      × (row.user ≡ pos id)

  -- The caller is a user who proved it.
  abbrev pub IsAuthenticated : ℕ → Request → Db → CurrentUser → Type 0
  IsAuthenticated now request db caller =
      (id : ℕ) × IsRow db id caller × (HasSession now request db id ⊎ HasToken request db id)

  token_user-IsRow :
      (db : Db) (id : ℤ) (u : CurrentUser)
      → token_user hash_token db id ≡ some u
      → (n : ℕ) × (id ≡ pos n) × IsRow db n u
  token_user-IsRow db (pos id) u h = (id, refl, active_user-IsRow db id u h)
  token_user-IsRow db (negsuc n) u h = absurd (none-ne-some u h)

  token-IsRow :
      (now : ℕ) (token : String) (db : Db) (u : CurrentUser)
      → (get_user_from_token hash_token now token db).0 ≡ some u
      → (id : ℕ) × (token_id : ℕ) × (row : Token) × IsRow db id u
        × Item token_id row db.tokens
        × (row.token_hash ≡ hash_token token)
        × (row.user ≡ pos id)
  unfolding get_user_from_token
  token-IsRow now token db u h =
      let test : ℕ → Token → Bool = λ id row. row.token_hash == hash_token token in
      elim (Option-cases (find_item test db.tokens)) [
        | inl missing ↦ absurd (none-ne-some u (rw (get_user_from_token, missing) at h))
        | inr ((token_id, row), found) ↦
            let (i, same) = find_item-Item test db.tokens token_id row found in
            elim (Option-cases (token_user hash_token db row.user)) [
              | inl gone ↦ absurd (none-ne-some u (rw (get_user_from_token, found, gone) at h))
              | inr (v, here) ↦
                  let e = some-injective v u (rw (get_user_from_token, found, here) at h) in
                  let (id, owner, r) = token_user-IsRow db row.user v here in
                  (
                    id,
                    token_id,
                    row,
                    subst (IsRow db id) e r,
                    i,
                    eq_of_same row.token_hash (hash_token token) same,
                    owner,
                  )
            ]
      ]

  from_session-row :
      (now : ℕ) (request : Request) (db : Db) (u : CurrentUser)
      → (from_session hash_token now request db).0 ≡ some u
      → IsAuthenticated now request db u
  from_session-row now request db u h = elim (Option-cases (truthy request.session_id)) [
    | inl none_given ↦ absurd (none-ne-some u (rw (from_session, none_given) at h))
    | inr (session_id, given) ↦
        let (id, session, r, found, owner, fresh) =
          session-IsRow now session_id db u (rw (from_session, given) at h) in
        (id, r, inl (session_id, session, given, found, owner, fresh))
  ]

  from_session-tables :
      (now : ℕ) (request : Request) (db : Db)
      → ((from_session hash_token now request db).1.users ≡ db.users)
        × ((from_session hash_token now request db).1.tokens ≡ db.tokens)
  from_session-tables now request db = elim (Option-cases (truthy request.session_id)) [
    | inl none_given ↦ rw (from_session, none_given) (refl, refl)
    | inr (session_id, given) ↦ rw (from_session, given) (session-tables now session_id db)
  ]

  from_token-IsRow :
      (now : ℕ) (request : Request) (db : Db) (u : CurrentUser)
      → (from_token hash_token now request db).0 ≡ some u
      → (id : ℕ) × IsRow db id u × HasToken request db id
  from_token-IsRow now request db u h =
      elim (Option-cases (truthy (extract_bearer_token request.authorization))) [
        | inl none_given ↦ absurd (none-ne-some u (rw (from_token, none_given) at h))
        | inr (token, given) ↦
            let (id, token_id, row, r, i, same, owner) =
              token-IsRow now token db u (rw (from_token, given) at h) in
            (id, r, (token, token_id, row, given, i, same, owner))
      ]

  -- With authentication on and without the admin's secret, the caller is authenticated or anonymous.
  optional-cases :
      (config : HostConfig) (now : ℕ) (request : Request) (db : Db)
      → config.auth_enabled ≡ true
      → is_admin_request config request ≡ false
      → IsAuthenticated now request db
          (get_current_user_optional hash_token config now request db).0
        ⊎ ((get_current_user_optional hash_token config now request db).0 ≡ create_anonymous_user)
  unfolding get_current_user_optional
  optional-cases config now request db on plain =
      let db' = (from_session hash_token now request db).1 in
      let (users, tokens) = from_session-tables now request db in
      elim (Option-cases (from_session hash_token now request db).0) [
        | inr (u, found) ↦
            rw (get_current_user_optional, on, plain, found)
              (inl (from_session-row now request db u found))
        | inl no_session ↦ elim (Option-cases (from_token hash_token now request db').0) [
          | inl no_token ↦
              rw (get_current_user_optional, on, plain, no_session, no_token) (inr refl)
          | inr (u, found) ↦
              let (id, (same, row, active), (token, token_id, r, given, i, hash, owner)) =
                from_token-IsRow now request db' u found in
              rw (get_current_user_optional, on, plain, no_session, found)
                (inl (
                  id,
                  (same, subst (λ d. get id d ≡ some u.user) users row, active),
                  inr (token, token_id, r, given, subst (Item token_id r) tokens i, hash, owner),
                ))
        ]
      ]

  -- What a guard with a role above the anonymous one lets through, and what it refuses.
  abbrev pub Guarded :
      String → HostConfig → ℕ → Request → Db → Result HttpError CurrentUser → Type 0
  Guarded role config now request db (ok caller) =
      (is_at_least caller.user.role role ≡ true) × IsAuthenticated now request db caller
  Guarded role config now request db (err e) =
      (e ≡ unauthorized)
      ⊎ ((e ≡ forbidden)
          × (caller : CurrentUser) × IsAuthenticated now request db caller
          × (is_at_least caller.user.role role ≡ false))

  -- With authentication on, a request without the admin's secret passes a guard above the anonymous
  -- role only for an active user of the table with at least the role, who has an unexpired session
  -- or a token of the table. A refusal is 401, or 403 for such a user with a lower role.
  pub require_role-Guarded :
      (role : String) (config : HostConfig) (now : ℕ) (request : Request) (db : Db)
      → config.auth_enabled ≡ true
      → is_admin_request config request ≡ false
      → is_at_least "anony" role ≡ false
      → Guarded role config now request db (require_role hash_token role config now request db).0
  unfolding require_role
  require_role-Guarded role config now request db on plain above =
      let caller = (get_current_user_optional hash_token config now request db).0 in
      elim (Bool-cases (is_at_least caller.user.role role)) [
        | inl enough ↦
            rw (require_role, enough)
              (
                enough,
                elim (optional-cases config now request db on plain) [
                  | inl authenticated ↦ authenticated
                  | inr anonymous ↦ absurd (
                      false-ne-true (
                        sym above
                        ∙ subst (λ u. is_at_least u.user.role role ≡ true) anonymous enough))
                ],
              )
        | inr few ↦ elim (Bool-cases (caller.user.role == "anony")) [
          | inl nobody ↦ rw (require_role, few, nobody) (inl refl)
          | inr somebody ↦
              rw (require_role, few, somebody)
                (inr (
                  refl,
                  caller,
                  elim (optional-cases config now request db on plain) [
                    | inl authenticated ↦ authenticated
                    | inr anonymous ↦
                        absurd (
                          false-ne-true (sym somebody ∙ ap (λ u. u.user.role == "anony") anonymous))
                  ],
                  few,
                ))
        ]
      ]

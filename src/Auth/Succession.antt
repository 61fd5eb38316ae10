-- ===== src/Auth/Succession.antt =====
-- A deleted user's tokens: the rows stay, and SQLite may give the id to the next user.
use kohaku_river.Common.{
  ℕ, ◌≡◌, refl, sym, ap, ◌∙◌, inl, inr, true, some, String, ◌==◌, nat_key, string_key, pair_key,
  get, get-put_same,
}
use kohaku_river.Common.Result.{ok, err-ne-ok}
use kohaku_river.Common.{find_item}
use kohaku_river.Common.Int.{pos}
use kohaku_river.Auth.{User, Token, Db, CurrentUser}
use kohaku_river.Auth.Access.{HostConfig, get_user_from_token, active_user, token_user}
use kohaku_river.Auth.Accounts.{RegisterRequest, new_user, register, delete_user}
use kohaku_river.Auth.Registration.{register-cases}
use kohaku_river.Auth.Management.{delete_user-cases}

delete_user-tokens :
    (admin : CurrentUser) (id : ℕ) (db : Db) → (delete_user admin id db).1.tokens ≡ db.tokens
delete_user-tokens admin id db = elim (delete_user-cases admin id db) [
  | inl same ↦ ap (λ x. x.tokens) same
  | inr (other, e) ↦ ap (λ x. x.tokens) e
]

module _ (hash_token : String → String) where
  token_user-new :
      (db : Db) (id : ℕ) (user : User)
      → get id db.users ≡ some user
      → user.is_active ≡ true
      → token_user hash_token db (pos id) ≡ some (record { id = pos id; user = user })
  token_user-new db id user found active = rw (active_user, found, active) refl

  token_found :
      (db : Db) (now : ℕ) (token : String) (token_id : ℕ) (row : Token) (u : CurrentUser)
      → find_item (λ i r. r.token_hash == hash_token token) db.tokens ≡ some (token_id, row)
      → token_user hash_token db row.user ≡ some u
      → (get_user_from_token hash_token now token db).0 ≡ some u
  unfolding get_user_from_token
  token_found db now token token_id row u first here = rw (get_user_from_token, first, here) refl

  -- A user is deleted, and the next registration is given the same id. Then a token of the deleted
  -- user, the first of its hash, makes the caller the new user.
  pub get_user_from_token-inherited :
      (config : HostConfig) (now later : ℕ) (admin : CurrentUser) (id token_id : ℕ)
      (request : RegisterRequest) (invitation session_id token : String) (row : Token) (db : Db)
      → row.user ≡ pos id
      → find_item (λ i r. r.token_hash == hash_token token) db.tokens ≡ some (token_id, row)
      → (register config now request invitation id session_id (delete_user admin id db).1).0 ≡ ok id
      → (role : String) × ((get_user_from_token hash_token later token
            (register config now request invitation id session_id (delete_user admin id db).1).1).0
          ≡ some (record { id = pos id; user = new_user request role }))
  unfolding get_user_from_token
  get_user_from_token-inherited config now later admin id token_id request invitation session_id
        token row db owner first registered =
      let gone = (delete_user admin id db).1 in
      elim (register-cases config now request invitation id session_id gone) [
        | inl (e, failed, same) ↦ absurd (err-ne-ok e id (sym failed ∙ registered))
        | inr (done, (role, used, granted, free, users, invitations, tokens)) ↦
            let db' = (register config now request invitation id session_id gone).1 in
            let user = new_user request role in
            let found : get id db'.users ≡ some user =
              ap (get id) users ∙ get-put_same id user gone.users in
            let here : token_user hash_token db' row.user
                ≡ some (record { id = pos id; user = user }) =
              ap (token_user hash_token db') owner ∙ token_user-new db' id user found refl in
            let kept = tokens ∙ delete_user-tokens admin id db in
            let first' = ap (find_item (λ i r. r.token_hash == hash_token token)) kept ∙ first in
            (role, token_found db' later token token_id row _ first' here)
      ]

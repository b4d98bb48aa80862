-- ===== src/Auth/Refresh.antt =====
-- src/auth/application/command/refresh-token/refresh-token.handler.ts
use task_manager_api.Prelude.{
  ℕ, Option, none, some, String, if◌then◌else◌, not, Result, ok, err, unauthorized,
}
use task_manager_api.Users.{User, equals}
use task_manager_api.Users.Repository.{
  find_by_id_with_refresh_token, update_refresh_token, clear_refresh_token,
}
use task_manager_api.Auth.{
  Env, World, RefreshClaims, audit, generate_access_token, generate_refresh_token,
}
use task_manager_api.Auth.Login.{Tokens}

-- The clock, the random UUID of the next token and the salt of its hash.
pub record Draw : Type 0 where
  pub now : ℕ
  pub token_id : String
  pub salt : ℕ

module _ (env : Env) where
  unfoldable pub refuse : Option ℕ → String → String → World env → World env
  refuse actor action reason w = audit env actor action "AUTH" none (some ("reason", reason)) w

  -- A token that does not fit the session: the session is closed.
  unfoldable pub reuse_detected : ℕ → String → World env → Result Tokens × World env
  reuse_detected id reason w =
      let w' = refuse (some id) "REFRESH_TOKEN_REUSE_DETECTED" reason w in
      (
        err unauthorized,
        record w' { users = clear_refresh_token env.users env.cache env.list_cache id w'.users },
      )

  -- The new pair of tokens, in the family of the session, which the first check found equal to that
  -- of the token.
  unfoldable pub rotate : String → Draw → ℕ × User → World env → Result Tokens × World env
  rotate family d (id, u) w =
      let next = generate_refresh_token env d.now id family d.token_id in
      (
        ok (record {
          access_token = generate_access_token env d.now (id, u);
          refresh_token = next;
        }),
        audit env (some id) "REFRESH_TOKEN_SUCCESS" "AUTH" none none (record w {
          users =
              update_refresh_token env.users env.cache env.list_cache id
                (some (env.bcrypt_hash d.salt next)) (some family) (some d.token_id) w.users;
        }),
      )

  -- The handler from the found user on: three checks of the token against the session.
  unfoldable pub refresh_as :
      String → RefreshClaims → String → Draw → ℕ × User → World env → Result Tokens × World env
  refresh_as token claims hash d (id, u) w =
      if not (equals u.token_family claims.family)
      then reuse_detected id "token_family_mismatch" w
      else if not (equals u.current_token_id claims.jti)
      then reuse_detected id "token_id_mismatch" w
      else if not (env.bcrypt_compare token hash)
      then reuse_detected id "token_hash_mismatch" w
      else rotate claims.family d (id, u) w

  unfoldable pub refresh : String → Draw → World env → Result Tokens × World env
  refresh token d w = elim (env.verify_refresh d.now token) [
    | none ↦ (err unauthorized, refuse none "REFRESH_TOKEN_FAILED" "invalid_token" w)
    | some claims ↦
        let missing : Result Tokens × World env =
          (err unauthorized, refuse none "REFRESH_TOKEN_FAILED" "refresh_token_not_found" w) in
        elim (find_by_id_with_refresh_token env.users env.cache env.list_cache claims.sub w.users) [
          | none ↦ missing
          | some (id, u) ↦ elim u.refresh_token_hash [
            | none ↦ missing
            | some hash ↦ refresh_as token claims hash d (id, u) w
          ]
        ]
  ]

-- ===== src/Auth/Password.antt =====
-- src/auth/application/command: reset-password/reset-password.handler.ts and
-- verify-email/verify-email.handler.ts. A token comes from the request and may be missing.
pub mod Reset
use Prim.Native.String
use task_manager_api.Prelude.{
  ℕ, Bool, true, false, Option, none, some, String, if◌then◌else◌, Result, ok, err, bad_request,
}
use task_manager_api.Users.Repository.{
  find_by_password_reset_token, update_password, clear_password_reset_token, clear_refresh_token,
  verify_email,
}
use task_manager_api.Auth.{Env, World, audit}

-- `!token`
abbrev pub is_missing : Option String → Bool
is_missing none = true
is_missing (some String.[]) = true
is_missing (some (String.◌∷◌ c s)) = false

abbrev pub token_text : Option String → String
token_text none = ""
token_text (some t) = t

module _ (env : Env) where
  -- The three writes of a password reset.
  unfoldable pub change_password : ℕ → ℕ → String → World env → World env
  unfolding audit
  change_password id salt new_password w =
      let users =
        update_password env.users env.cache env.list_cache id (env.bcrypt_hash salt new_password)
          w.users in
      let users' = clear_password_reset_token env.users env.cache env.list_cache id users in
      audit env (some id) "PASSWORD_RESET_COMPLETED" "USER" none none
        (record w { users = clear_refresh_token env.users env.cache env.list_cache id users' })

  unfoldable pub reset_password :
      Option String → String → (now salt : ℕ) → World env → Result String × World env
  reset_password token new_password now salt w =
      if is_missing token
      then (
        err bad_request,
        audit env none "PASSWORD_RESET_FAILED" "AUTH" none (some ("reason", "missing_token")) w,
      )
      else elim (find_by_password_reset_token env.users env.cache env.list_cache
          (env.sha256 (token_text token)) now w.users) [
            | none ↦ (
              err bad_request,
              audit env none "PASSWORD_RESET_FAILED" "AUTH" none
                  (some ("reason", "invalid_or_expired_token")) w,
            )
            | some (id, u) ↦
                (ok "Password reset successfully", change_password id salt new_password w)
          ]

  unfoldable pub confirm_email : Option String → ℕ → World env → Result String × World env
  confirm_email token now w =
      if is_missing token
      then (
        err bad_request,
        audit env none "EMAIL_VERIFICATION_FAILED" "AUTH" none (some ("reason", "token_missing")) w,
      )
      else let (found, users) =
          verify_email env.users env.cache env.list_cache (env.sha256 (token_text token)) now
            w.users in
        elim found [
          | none ↦ (
            err bad_request,
            audit env none "EMAIL_VERIFICATION_FAILED" "AUTH" none
                (some ("reason", "invalid_or_expired_token")) (record w { users = users }),
          )
          | some (id, u) ↦ (
            ok "Email verified successfully",
            audit env (some id) "EMAIL_VERIFIED" "USER" none none (record w { users = users }),
          )
        ]

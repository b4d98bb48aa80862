-- ===== src/Auth/Login.antt =====
-- src/auth/application/command/login/login.handler.ts, and logout/logout.handler.ts.
pub mod Conditions
pub mod Attack
use task_manager_api.Prelude.{
  ℕ, Bool, false, Option, none, some, String, if◌then◌else◌, Result, ok, err, unauthorized,
  forbidden, not,
}
use task_manager_api.Users.{User}
use task_manager_api.Users.Repository.{
  Found, find_by_email, update_refresh_token, clear_refresh_token,
}
use task_manager_api.Auth.BruteForce
use task_manager_api.Auth.BruteForce.{is_blocked, record_failure}
use task_manager_api.Auth.{Env, World, audit, generate_access_token, generate_refresh_token}

-- What the handler draws from outside: the clock, two random UUIDs and the salt of the hash.
pub record Draw : Type 0 where
  pub now : ℕ
  pub family : String
  pub token_id : String
  pub salt : ℕ

pub record Tokens : Type 0 where
  pub access_token : String
  pub refresh_token : String

-- bcrypt on a password that the query did not select.
abbrev pub compare_stored : (String → String → Bool) → String → Option String → Bool
compare_stored compare' text none = false
compare_stored compare' text (some hash) = compare' text hash

module _ (env : Env) where
  -- The count of failures, and the entry that says why the login failed.
  unfoldable pub count_failure : String → Option ℕ → Option String → World env → World env
  unfolding record_failure audit
  count_failure email actor ip w =
      audit env actor "LOGIN_FAILED" "AUTH" ip (some ("reason", "invalid_credentials"))
        (record w { attempts = record_failure env.counters env.to_lower env.trim email w.attempts })

  -- The handler from `bruteForceService.reset` on.
  unfoldable pub open_session :
      String → Option String → Draw → Found → World env → Result Tokens × World env
  unfolding audit generate_access_token generate_refresh_token
  open_session email ip d (id, u) w =
      let refresh = generate_refresh_token env d.now id d.family d.token_id in
      (
        ok (record {
          access_token = generate_access_token env d.now (id, u);
          refresh_token = refresh;
        }),
        audit env (some id) "LOGIN_SUCCESS" "AUTH" ip (some ("method", "password")) (record w {
          attempts = BruteForce.reset env.counters env.to_lower env.trim email w.attempts;
          users =
              update_refresh_token env.users env.cache env.list_cache id
                (some (env.bcrypt_hash d.salt refresh)) (some d.family) (some d.token_id) w.users;
        }),
      )

  unfoldable pub login_as :
      String → String → Option String → Draw → Found → World env → Result Tokens × World env
  login_as email password ip d (id, u) w =
      if not (compare_stored env.bcrypt_compare password u.password)
      then (err unauthorized, count_failure email (some id) ip w)
      else if not u.email_verified
      then (
        err forbidden,
        audit env (some id) "LOGIN_BLOCKED" "AUTH" ip (some ("reason", "email_not_verified")) w,
      )
      else open_session email ip d (id, u) w

  unfoldable pub login :
      String → String → Option String → Draw → World env → Result Tokens × World env
  login email password ip d w =
      if is_blocked env.counters env.to_lower env.trim email w.attempts
      then (
        err unauthorized,
        audit env none "LOGIN_BLOCKED" "AUTH" ip (some ("reason", "brute_force_protection")) w,
      )
      else elim (find_by_email env.users env.cache env.list_cache email w.users) [
        | none ↦ (err unauthorized, count_failure email none ip w)
        | some found ↦ login_as email password ip d found w
      ]

  -- `LogoutHandler.execute`
  unfoldable pub logout : ℕ → World env → World env
  unfolding audit
  logout id w =
      audit env (some id) "LOGOUT_SUCCESS" "AUTH" none none
        (record w { users = clear_refresh_token env.users env.cache env.list_cache id w.users })

-- ===== src/Auth.antt =====
-- src/auth: what the commands share. The hash functions, the signed tokens and the services'
-- stores are outside of the source: one record of parameters, with the documented laws used.
pub mod BruteForce
pub mod Login
pub mod Refresh
pub mod Password
pub mod Sessions
pub mod Accounts
pub mod RateLimit
use Prim.Native.String
use task_manager_api.Prelude.{
  ℕ, ◌+◌, ◌≤◌, ◌<◌, ◌≡◌, Bool, true, false, Option, none, some, List, [], ◌∷◌, String,
}
use task_manager_api.Platform.Collection.{Collection}
use task_manager_api.Platform.Cache.{Cache}
use task_manager_api.Platform.Redis.{Counters}
use task_manager_api.Users.{User}
use task_manager_api.Users.Repository.{Found, Users}
use task_manager_api.Audit.{Entry, MetaValue, text, log}

-- The payloads of src/auth/services/token.service.ts.
pub record AccessClaims : Type 0 where
  pub sub : ℕ
  pub email : String
  pub role : String

pub record RefreshClaims : Type 0 where
  pub sub : ℕ
  pub family : String
  pub jti : String

pub record Env : Type 1 where
  pub users : Collection User
  pub cache : Cache User
  pub list_cache : Cache (List Found)
  pub counters : Counters
  pub to_lower : String → String
  pub trim : String → String
  -- bcrypt, with the salt that a call of `hash` draws.
  pub bcrypt_hash : (salt : ℕ) → String → String
  pub bcrypt_compare : String → String → Bool
  pub sha256 : String → String
  -- JSON web tokens: the time of signing and of verifying, in milliseconds.
  pub sign_access : ℕ → AccessClaims → String
  pub sign_refresh : ℕ → RefreshClaims → String
  pub verify_refresh : ℕ → String → Option RefreshClaims
  pub refresh_lifetime : ℕ
  pub compare-hash : (salt : ℕ) (t : String) → bcrypt_compare t (bcrypt_hash salt t) ≡ true
  pub verify-sign :
      (now later : ℕ) (c : RefreshClaims)
      → now ≤ later
      → later < now + refresh_lifetime
      → verify_refresh later (sign_refresh now c) ≡ some c

module _ (env : Env) where
  abbrev pub UserStore : Type 0
  UserStore = Users env.users env.cache env.list_cache

  pub record World : Type 0 where
    pub users : UserStore
    pub attempts : env.counters.Store
    pub trail : List Entry

  -- `auditService.log` with a `meta` of one text, or without one.
  unfoldable pub audit :
      Option ℕ → String → String → Option String → Option (String × String) → World → World
  audit actor action resource ip reason w =
      let meta : Option (List (String × MetaValue)) = elim reason [
        | none ↦ none
        | some (k, v) ↦ some ((k, text v) ∷ [])
      ] in
      record w {
        trail =
            log env.to_lower
              (record {
                actor_id = actor;
                action = action;
                resource = resource;
                workspace_id = none;
                ip = ip;
                meta = meta;
              })
              w.trail;
      }

  -- src/auth/services/token.service.ts
  unfoldable pub generate_access_token : ℕ → ℕ × User → String
  generate_access_token now (id, u) =
      env.sign_access now (record { sub = id; email = u.email; role = u.role })

  unfoldable pub generate_refresh_token : ℕ → ℕ → String → String → String
  generate_refresh_token now id family token_id =
      env.sign_refresh now (record { sub = id; family = family; jti = token_id })

-- ===== src/Examples/Auth.antt =====
-- The authentication commands in a world in memory.
use task_manager_api.Prelude.{
  Option, ℕ, zero, suc, ◌≡◌, refl, ◌↔◌, true, false, none, some, List, [], ◌∷◌, String, arith,
  str_eq, eq_iff, ok, err, unauthorized, bad_request, is_some,
}
use task_manager_api.Platform.Memory
use task_manager_api.Platform.CacheMemory
use task_manager_api.Platform.RedisMemory
use task_manager_api.Users.{User, with_password, awaits_reset}
use task_manager_api.Users.Repository.{Found, find_by_email}
use task_manager_api.Audit.{Entry, text}
use task_manager_api.Auth.{Env, World, RefreshClaims}
use task_manager_api.Auth.BruteForce.{
  is_blocked, record_failure, reset, fail_times, blocked_after, record_failure-RunsOut, get_key,
}
use task_manager_api.Auth.Login
use task_manager_api.Auth.Login.{Tokens, login, logout}
use task_manager_api.Auth.Login.Conditions.{MayLogIn, login_iff}
use task_manager_api.Auth.Login.Attack.{attack, attack_is_blocked}
use task_manager_api.Auth.Refresh.{Draw, refresh}
use task_manager_api.Auth.Sessions.{doc, Session}
use task_manager_api.Auth.Sessions.SingleUse.{
  refresh_token_single_use, login-refresh, logout_closes,
}
use task_manager_api.Auth.Password.{reset_password}
use task_manager_api.Auth.Password.Reset.{Awaits, reset_password_effect, reset_token_single_use}
use task_manager_api.Examples.Tokens.{sign, read, read-sign}

pub same_text : (t : String) → str_eq t t ≡ true
same_text t = (eq_iff t t).1 refl

abbrev pub env : Env
env = record {
  users = Memory.memory User;
  cache = CacheMemory.memory User;
  list_cache = CacheMemory.memory (List Found);
  counters = RedisMemory.counters;
  to_lower = λ t. t;
  trim = λ t. t;
  bcrypt_hash = λ salt t. t;
  bcrypt_compare = str_eq;
  sha256 = λ t. t;
  sign_access = λ now c. c.email;
  sign_refresh = λ now c. sign c;
  verify_refresh = λ now t. read t;
  refresh_lifetime = 1000;
  compare-hash = λ salt t. same_text t;
  verify-sign = λ now later c from until. read-sign c;
}

abbrev pub ann : User
ann = record {
  email = "ann";
  password = some "secret";
  role = "user";
  refresh_token_hash = none;
  token_family = none;
  current_token_id = none;
  email_verified = true;
  email_verification_token_hash = none;
  email_verification_expires_at = none;
  password_reset_token_hash = some "reset";
  password_reset_expires_at = some 900;
}

abbrev pub world : World env
world = record {
  users = record { docs = some ann ∷ []; cached = λ k. none; cached_list = λ k. none };
  attempts = [];
  trail = [];
}

abbrev pub at_login : Login.Draw
at_login = record { now = 10; family = "f"; token_id = "t1"; salt = 0 }

abbrev claims : String → RefreshClaims
claims id = record { sub = 0; family = "f"; jti = id }

abbrev at_time : ℕ → String → Draw
at_time now id = record { now = now; token_id = id; salt = 0 }

may_log_in : MayLogIn env "ann" "secret" none at_login world 0 (with_password ann)
unfolding is_blocked find_by_email
may_log_in = record { not_blocked = refl; found = refl; matches = refl; verified = refl }

login_iff_example :
    ((t : Tokens) × ((login env "ann" "secret" none at_login world).0 ≡ ok t))
    ↔ ((id : ℕ) × (u : User) × MayLogIn env "ann" "secret" none at_login world id u)
login_iff_example = login_iff env "ann" "secret" none at_login world

abbrev guess : String × Option String × Login.Draw
guess = ("guess", none, at_login)

attack_is_blocked_example :
    (login env "ann" "secret" none at_login (
      attack env "ann"
        (("secret", some "10.0.0.1", at_login) ∷ [])
        (attack env "ann" (guess ∷ guess ∷ guess ∷ guess ∷ guess ∷ []) world))).0
    ≡ err unauthorized
unfolding find_by_email
attack_is_blocked_example =
    attack_is_blocked env "ann" 0 (with_password ann) (guess ∷ guess ∷ guess ∷ guess ∷ guess ∷ [])
      (("secret", some "10.0.0.1", at_login) ∷ []) "secret" none at_login world refl
      (refl, (refl, (refl, (refl, (refl, tt))))) (omega arith)

abbrev signed_in : World env
signed_in = record world {
  users = record {
    docs =
        some (record ann {
          refresh_token_hash = some (sign (claims "t1"));
          token_family = some "f";
          current_token_id = some "t1";
        })
        ∷ [];
    cached = λ k. none;
    cached_list = λ k. none;
  };
}

session : Session env signed_in 0 (sign (claims "t1")) "f" "t1"
session = record {
  user = _;
  hash = sign (claims "t1");
  stored = refl;
  in_family = refl;
  current = refl;
  hashed = refl;
  matches = same_text (sign (claims "t1"));
}

refresh_token_single_use_example :
    (refresh env
      (sign (claims "t2"))
      (at_time 40 "t4")
      (refresh env
        (sign (claims "t1"))
        (at_time 30 "t3")
        (refresh env (sign (claims "t1")) (at_time 20 "t2") signed_in).1).1).0
    ≡ err unauthorized
refresh_token_single_use_example =
    (refresh_token_single_use env 0 (sign (claims "t1")) "f" "t1" (sign (claims "t2")) (claims "t2")
      (at_time 20 "t2") (at_time 30 "t3") (at_time 40 "t4") signed_in session
      (λ h. absurd (ground (arith, eq_iff "t1" "t2"))) (read-sign (claims "t1"))
      (read-sign (claims "t1")) (read-sign (claims "t2")) refl).2

login-refresh_example :
    (t t' : Tokens) × ((login env "ann" "secret" none at_login world).0 ≡ ok t)
    × ((refresh env t.refresh_token
          (at_time 20 "t2")
          (login env "ann" "secret" none at_login world).1).0
        ≡ ok t')
login-refresh_example =
    login-refresh env "ann" "secret" none at_login (at_time 20 "t2") world 0 (with_password ann)
      may_log_in (omega arith) (omega arith)

logout_closes_example :
    (refresh env (sign (claims "t1")) (at_time 20 "t2") (logout env 0 signed_in)).0
    ≡ err unauthorized
logout_closes_example =
    logout_closes env 0 session.user (sign (claims "t1")) (claims "t1") (at_time 20 "t2") signed_in
      session.stored (read-sign (claims "t1")) refl

pub only_ann : (j : ℕ) (v : User) → doc env j world ≡ some v → j ≡ 0
only_ann zero v stored = refl
only_ann (suc j) v stored = absurd (ground arith)

awaits : Awaits env (some "reset") 500 world 0 ann
unfolding awaits_reset
awaits = record {
  stored = refl;
  given = refl;
  waits = refl;
  alone = λ j v stored holds. only_ann j v stored;
}

reset_password_effect_example :
    (reset_password env (some "reset") "new" 500 0 world).0 ≡ ok "Password reset successfully"
reset_password_effect_example =
    (reset_password_effect env (some "reset") 500 world 0 ann awaits "new" 0 1).0

reset_token_single_use_example :
    (reset_password env
      (some "reset")
      "other"
      600
      0
      (reset_password env (some "reset") "new" 500 0 world).1).0
    ≡ err bad_request
reset_token_single_use_example =
    (reset_token_single_use env (some "reset") 500 world 0 ann awaits "new" "other" 0 0 600).0

blocked_after_example :
    is_blocked env.counters env.to_lower env.trim "ann" (
      fail_times env.counters env.to_lower env.trim 4 "ann"
        (reset env.counters env.to_lower env.trim "ann" []))
    ≡ false
blocked_after_example = blocked_after env.counters env.to_lower env.trim 4 "ann" []

record_failure-RunsOut_example :
    is_some (
      env.counters.ttl "auth:login:failed:ann"
        (record_failure env.counters env.to_lower env.trim "ann" []))
    ≡ true
unfolding record_failure get_key
record_failure-RunsOut_example =
    record_failure-RunsOut env.counters env.to_lower env.trim "ann" []
      (λ k h. absurd (ground arith)) "auth:login:failed:ann" refl

abbrev entry : Entry
entry = record {
  actor_id = none;
  action = "A";
  resource = "R";
  workspace_id = none;
  ip = none;
  meta = some (("Token", text "abc") ∷ ("role", text "ADMIN") ∷ []);
}

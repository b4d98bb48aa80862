-- ===== src/Auth/BruteForce.antt =====
-- src/auth/services/brute-force.service.ts: the count of failed logins of an email in Redis.
use Prim.Native.String
use task_manager_api.Prelude.{
  ℕ, zero, suc, ◌+◌, ◌*◌, ◌≡◌, ap, ◌∙◌, Bool, true, false, none, some, String, arith, leb, ◌==◌,
  if◌then◌else◌, is_some, str_eq, eq_iff,
}
use task_manager_api.Platform.Redis.{Counters, or_else}

abbrev pub max_attempts : ℕ
max_attempts = 5

abbrev pub window_seconds : ℕ
window_seconds = 15 * 60

module _ (counters : Counters) (to_lower trim : String → String) where
  unfoldable pub get_key : String → String
  get_key email = String.◌++◌ "auth:login:failed:" (to_lower (trim email))

  unfoldable pub is_blocked : String → counters.Store → Bool
  is_blocked email s = elim (counters.get (get_key email) s) [
    | none ↦ false
    | some attempts ↦ leb max_attempts attempts
  ]

  unfoldable pub record_failure : String → counters.Store → counters.Store
  record_failure email s =
      let key = get_key email in
      let (attempts, s') = counters.incr key s in
      if attempts == 1 then counters.expire key window_seconds s' else s'

  unfoldable pub reset : String → counters.Store → counters.Store
  reset email s = counters.del (get_key email) s

  -- The failures counted for an email.
  pub failures : String → counters.Store → ℕ
  failures email s = or_else (counters.get (get_key email) s) 0

  -- A failure counts one for the emails that share the key and none for the others.
  pub failures-record_failure :
      (email other : String) (s : counters.Store)
      → failures other (record_failure email s) ≡ (
          if str_eq (get_key email) (get_key other)
          then suc (failures email s)
          else failures other s)
  unfolding failures record_failure
  failures-record_failure email other s = ground (
    arith,
    counters.incr_reply (get_key email) s,
    counters.get-incr (get_key email) (get_key other) s,
    counters.get-expire (get_key email) (get_key other) window_seconds
        (counters.incr (get_key email) s).1,
  )

  pub is_blocked-failures :
      (email : String) (s : counters.Store)
      → is_blocked email s ≡ leb max_attempts (failures email s)
  unfolding is_blocked failures
  is_blocked-failures email s = ground arith

  pub fail_times : ℕ → String → counters.Store → counters.Store
  fail_times zero email s = s
  fail_times (suc n) email s = fail_times n email (record_failure email s)

  failures-fail_times :
      (n : ℕ) (email : String) (s : counters.Store)
      → failures email (fail_times n email s) ≡ n + failures email s
  unfolding fail_times
  failures-fail_times zero email s = omega arith
  failures-fail_times (suc n) email s = ground (
    arith,
    failures-fail_times n email (record_failure email s),
    failures-record_failure email email s,
    eq_iff (get_key email) (get_key email),
  )

  failures-reset : (email : String) (s : counters.Store) → failures email (reset email s) ≡ 0
  unfolding failures reset
  failures-reset email s = ground (
    arith,
    counters.get-del (get_key email) (get_key email) s,
    eq_iff (get_key email) (get_key email),
  )

  -- After a reset, an email is blocked by five failures in a row and by no fewer.
  pub blocked_after :
      (n : ℕ) (email : String) (s : counters.Store)
      → is_blocked email (fail_times n email (reset email s)) ≡ leb max_attempts n
  blocked_after n email s =
      let zero_failures = failures-reset email s in
      let counted = failures-fail_times n email (reset email s) in
      is_blocked-failures email (fail_times n email (reset email s))
      ∙ ap (leb max_attempts) (omega (arith, zero_failures, counted))

  -- Every counter has a time to live.
  abbrev pub RunsOut : counters.Store → Type 0
  RunsOut s = (k : String) → is_some (counters.get k s) ≡ true → is_some (counters.ttl k s) ≡ true

  -- Where every counter has a time to live, every counter has one after a recorded failure: no
  -- email is blocked for ever.
  pub record_failure-RunsOut :
      (email : String) (s : counters.Store)
      → RunsOut s
      → (k : String) → is_some (counters.get k (record_failure email s)) ≡ true
      → is_some (counters.ttl k (record_failure email s)) ≡ true
  unfolding record_failure
  record_failure-RunsOut email s h k c =
      let key = get_key email in
      let s' = (counters.incr key s).1 in
      ground (
        arith,
        h k,
        eq_iff key k,
        counters.incr_reply key s,
        counters.get-incr key k s,
        counters.get-incr key key s,
        eq_iff key key,
        counters.ttl-incr key k s,
        counters.get-expire key k window_seconds s',
        counters.ttl-expire key k window_seconds s',
      )

-- ===== src/Auth/RateLimit.antt =====
-- src/auth/services/user-rate-limit.service.ts and
-- src/auth/interceptors/user-rate-limit.interceptor.ts: the requests of a user in a window, counted
-- in Redis. `load_test_mode` is whether the environment has `LOAD_TEST=true`.
use Prim.Native.String
use text.Mathlib.TextLemmas.{append_cancel_left}
use task_manager_api.Prelude.{
  ℕ, zero, suc, ◌+◌, ◌*◌, ◌≡◌, ◌≢◌, ap, ◌∙◌, Bool, true, false, Option, none, some, String, arith,
  leb, ◌==◌, if◌then◌else◌, str_eq, eq_iff, too_many_requests, Exception,
}
use task_manager_api.Platform.Redis.{Counters, or_else}
use task_manager_api.Auth.Password.{is_missing, token_text}

abbrev pub limit : ℕ
limit = 100

abbrev pub window_seconds : ℕ
window_seconds = 15 * 60

-- `request.user`, where the request is authenticated.
pub record RequestUser : Type 0 where
  pub user_id : Option String
  pub sub : Option String

-- The user that a request is counted for: `user.userId ?? user.sub`, where one of them is given.
abbrev pub counted_user : Option RequestUser → Option String
counted_user none = none
counted_user (some u) =
    if is_missing u.user_id
    then (if is_missing u.sub then none else some (or_else u.user_id (token_text u.sub)))
    else some (token_text u.user_id)

module _ (counters : Counters) (load_test_mode : Bool) where
  unfoldable pub get_key : String → String
  get_key user_id = String.◌++◌ "rate-limit:user:" user_id

  unfoldable pub check_limit : String → counters.Store → Bool × counters.Store
  check_limit user_id s =
      if load_test_mode
      then (true, s)
      else let key = get_key user_id in
        let (count, s') = counters.incr key s in
        (leb count limit, if count == 1 then counters.expire key window_seconds s' else s')

  unfoldable pub reset : String → counters.Store → counters.Store
  reset user_id s = counters.del (get_key user_id) s

  -- The interceptor: `none` lets the request pass to the handler.
  unfoldable pub intercept_limit :
      Option RequestUser → counters.Store → Option Exception × counters.Store
  intercept_limit user s = elim (counted_user user) [
    | none ↦ (none, s)
    | some user_id ↦
        let (allowed, s') = check_limit user_id s in
        (if allowed then none else some too_many_requests, s')
  ]

  -- The requests counted for a user.
  abbrev pub requests : String → counters.Store → ℕ
  requests user_id s = or_else (counters.get (get_key user_id) s) 0

  abbrev pub request_times : ℕ → String → counters.Store → counters.Store
  request_times zero user_id s = s
  request_times (suc n) user_id s = request_times n user_id (check_limit user_id s).1

  module _ (counting : load_test_mode ≡ false) where
    get_key-injective : (u v : String) → get_key u ≡ get_key v → u ≡ v
    unfolding get_key
    get_key-injective u v h = append_cancel_left "rate-limit:user:" u v h

    requests-check_limit :
        (u v : String) (s : counters.Store)
        → requests v (check_limit u s).1 ≡ (if str_eq u v then suc (requests u s) else requests v s)
    unfolding check_limit
    requests-check_limit u v s = ground (
      arith,
      counting,
      get_key-injective u v,
      eq_iff u v,
      eq_iff (get_key u) (get_key v),
      ap get_key,
      counters.incr_reply (get_key u) s,
      counters.get-incr (get_key u) (get_key v) s,
      counters.get-expire (get_key u) (get_key v) window_seconds (counters.incr (get_key u) s).1,
    )

    -- Outside of the load-test mode, the requests of one user are not counted for another.
    pub requests_apart :
        (u v : String) (s : counters.Store) → u ≢ v → requests v (check_limit u s).1 ≡ requests v s
    requests_apart u v s apart = ground (arith, requests-check_limit u v s, eq_iff u v)

    requests-request_times :
        (n : ℕ) (u : String) (s : counters.Store)
        → requests u (request_times n u s) ≡ n + requests u s
    requests-request_times zero u s = omega arith
    requests-request_times (suc n) u s = ground (
      arith,
      requests-request_times n u (check_limit u s).1,
      requests-check_limit u u s,
      eq_iff u u,
    )

    allowed_lem :
        (u : String) (s : counters.Store) → (check_limit u s).0 ≡ leb (suc (requests u s)) limit
    unfolding check_limit
    allowed_lem u s = ground (arith, counting, counters.incr_reply (get_key u) s)

    -- Outside of the load-test mode, after a reset the first hundred requests of a user in the
    -- window pass, and no more.
    pub allowed_after :
        (n : ℕ) (u : String) (s : counters.Store)
        → (check_limit u (request_times n u (reset u s))).0 ≡ leb (suc n) limit
    unfolding reset
    allowed_after n u s =
        let none_yet : requests u (counters.del (get_key u) s) ≡ 0 =
          ground
            (arith, counters.get-del (get_key u) (get_key u) s, eq_iff (get_key u) (get_key u)) in
        let counted = requests-request_times n u (reset u s) in
        allowed_lem u (request_times n u (reset u s))
        ∙ ap (λ k. leb (suc k) limit) (omega (arith, none_yet, counted))

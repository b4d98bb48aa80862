-- ===== src/Examples/Idempotency.antt =====
-- Requests through the idempotency interceptor, with Redis in memory.
use task_manager_api.Prelude.{
  ℕ, suc, ◌≡◌, refl, true, false, Option, some, List, [], ◌∷◌, String, arith, eq_iff, Result, ok,
  err, internal_error,
}
use task_manager_api.Platform.Redis.{Redis}
use task_manager_api.Platform.RedisMemory
use task_manager_api.Idempotency.{IdempotencyRecord, build_key, stored, reserve}
use task_manager_api.Idempotency.Interceptor.{
  Request, Fingerprinted, Reply, check_header, build_scope, build_fingerprint, intercept,
  intercept_key, run_handler,
}
use task_manager_api.Idempotency.Requests.{intercept_replays}
use task_manager_api.Idempotency.Exclusion.{Call, reserves, releases, waits, run, reserve_exclusive}
use task_manager_api.Idempotency.Expiry.{reserve_runs_out}

abbrev redis : Redis (IdempotencyRecord String)
redis = RedisMemory.memory (IdempotencyRecord String)

-- A digest for the examples: the body.
abbrev digest : Fingerprinted String → String
digest f = f.body

abbrev request : Request String
request = record {
  idempotency_key = some "k1";
  user_id = some "7";
  method = "POST";
  base_url = "/api/v1/tasks";
  url = "/";
  original_url = some "/api/v1/tasks?x=1";
  path = "/";
  body = some "{title}";
}

-- A handler that counts its runs.
abbrev creates : ℕ → Result (ℕ × Option String) × ℕ
creates n = (ok (201, some "task"), suc n)

abbrev throws : ℕ → Result (ℕ × Option String) × ℕ
throws n = (err internal_error, suc n)

abbrev reply : Reply String
reply = record { status = some 201; body = some "task" }

abbrev free : redis.Store
free = []

-- Another request under another key, a second one under the same key, and four minutes.
abbrev between : List (Call String)
between =
    reserves "7:POST:/api/v1/tasks" "k2" "{other}"
    ∷ reserves "7:POST:/api/v1/tasks" "k1" "{title}"
    ∷ waits 240
    ∷ []

intercept_replays_example :
    (intercept "{}" digest redis throws request 5
      (run redis between (intercept "{}" digest redis creates request 0 free).2)).0
    ≡ ok reply
unfolding intercept intercept_key reserve check_header build_fingerprint build_key build_scope
    run_handler stored
intercept_replays_example =
    (intercept_replays "{}" digest redis creates throws request "k1" reply between 0 5 free refl
      refl refl (tt, (tt, (tt, tt))) (omega arith)).0

reserve_exclusive_example :
    (reserve redis "s" "k" "g"
      (run redis (releases "s" "other" ∷ waits 299 ∷ []) (reserve redis "s" "k" "f" free).1)).0.0
    ≡ false
unfolding build_key reserve
reserve_exclusive_example =
    reserve_exclusive redis "s" "k" "f" "g" (releases "s" "other" ∷ waits 299 ∷ []) free refl
      ((λ h. absurd (differs h)), (tt, tt)) (omega arith)
  where
    differs : build_key "s" "other" ≡ build_key "s" "k" → ⊥
    differs h = ground (arith, eq_iff (build_key "s" "other") (build_key "s" "k"))

reserve_runs_out_example :
    (reserve redis "s" "k" "g"
      (run redis (waits 200 ∷ waits 100 ∷ []) (reserve redis "s" "k" "f" free).1)).0.0
    ≡ true
unfolding build_key reserve
reserve_runs_out_example =
    reserve_runs_out redis "s" "k" "f" "g" (waits 200 ∷ waits 100 ∷ []) free refl (tt, (tt, tt))
      (omega arith)

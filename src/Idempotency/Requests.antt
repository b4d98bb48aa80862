-- ===== src/Idempotency/Requests.antt =====
-- What a client of the interceptor sees over two requests.
use task_manager_api.Prelude.{
  ℕ, ◌≡◌, ◌<◌, ap, sym, ◌∙◌, List, All, not, Option, none, some, String, arith, if◌then◌else◌,
  str_eq, Result, ok, err, Exception, conflict,
}
use task_manager_api.Platform.Redis.{Redis}
use task_manager_api.Idempotency.{
  IdempotencyRecord, processing, completed, stored, build_key, reserve,
}
use task_manager_api.Idempotency.Interceptor.{
  Request, Fingerprinted, Reply, check_header, build_scope, build_fingerprint, run_handler,
  intercept,
}
use task_manager_api.Idempotency.Exclusion.{Call, Leaves, run, waited, run-Leaves}
use task_manager_api.Idempotency.Replay.{
  print, run_handler-HasReply, run_handler_ttl, stored-release, intercept_key_free,
  intercept_key_taken, replay_key, intercept_valid,
}

module _ {Json : Type 0} (empty_object : Json) (digest : Fingerprinted Json → String)
    (redis : Redis (IdempotencyRecord Json)) where
  -- A request on a free key that got a reply gets the same reply when it is sent again under that key
  -- within 300 seconds, whatever other requests do with Redis in between short of completing or
  -- releasing that key, and whatever the handler would now do; the handler does not run: the state
  -- stays as it is.
  pub intercept_replays :
      {App : Type 0} (handle handle' : App → Result (ℕ × Option Json) × App) (r : Request Json)
      (key : String) (reply : Reply Json) (cs : List (Call Json)) (app app' : App) (s : redis.Store)
      → check_header r.idempotency_key ≡ ok key
      → stored redis (build_scope r) key s ≡ none
      → (intercept empty_object digest redis handle r app s).0 ≡ ok reply
      → All (Leaves redis (build_key (build_scope r) key)) cs
      → waited redis cs < 300
      → let s' = run redis cs (intercept empty_object digest redis handle r app s).2 in
        ((intercept empty_object digest redis handle' r app' s').0 ≡ ok reply)
        × ((intercept empty_object digest redis handle' r app' s').1 ≡ app')
  unfolding stored
  intercept_replays handle handle' r key reply cs app app' s valid free h ns few =
      let once =
        intercept_valid empty_object digest redis handle r key app s valid
        ∙ intercept_key_free empty_object digest redis handle r key app s free in
      let s1 = (reserve redis (build_scope r) key (print empty_object digest redis r) s).1 in
      let ran : (run_handler empty_object digest redis handle (build_scope r) key
            (print empty_object digest redis r) app s1).0
          ≡ ok reply =
        ap (λ x. x.0) (sym once) ∙ h in
      let kept = run_handler-HasReply empty_object digest redis handle r key app s reply s1 ran in
      let left = run_handler_ttl empty_object digest redis handle r key app s reply s1 ran in
      rw (intercept_valid empty_object digest redis handle' r key app' _ valid, once)
        (replay_key empty_object digest redis handle' r key app' _ reply (
          run-Leaves redis (build_key (build_scope r) key) cs _ _ ns kept
            (rw left (ground (arith, few)))))

  -- A handler that throws on a free key leaves the key free, so that the request can be repeated.
  pub intercept_failure_releases :
      {App : Type 0} (handle : App → Result (ℕ × Option Json) × App) (r : Request Json)
      (key : String) (e : Exception) (app app' : App) (s : redis.Store)
      → check_header r.idempotency_key ≡ ok key
      → stored redis (build_scope r) key s ≡ none
      → handle app ≡ (err e, app')
      → let (answer, after, s') = intercept empty_object digest redis handle r app s in
        (answer ≡ err e) × (after ≡ app') × (stored redis (build_scope r) key s' ≡ none)
  unfolding run_handler
  intercept_failure_releases handle r key e app app' s valid free threw =
      rw
        (
          intercept_valid empty_object digest redis handle r key app s valid,
          intercept_key_free empty_object digest redis handle r key app s free,
          threw,
          run_handler,
        )
        (ground arith, ground arith, stored-release redis (build_scope r) key _)

  -- With a record under the key the handler does not run: another fingerprint and a request still
  -- in PROCESSING are conflicts, a completed one answers with its reply. The record stays.
  pub intercept_taken :
      {App : Type 0} (handle : App → Result (ℕ × Option Json) × App) (r : Request Json)
      (key : String) (old : IdempotencyRecord Json) (app : App) (s : redis.Store)
      → check_header r.idempotency_key ≡ ok key
      → stored redis (build_scope r) key s ≡ some old
      → let (answer, after, s') = intercept empty_object digest redis handle r app s in
        (answer ≡ (
          if not (str_eq old.fingerprint (build_fingerprint empty_object digest redis r))
          then err conflict
          else elim old.status [
            | processing ↦ err conflict
            | completed ↦ ok (record { status = old.status_code; body = old.response_body })
          ]))
        × (after ≡ app)
        × (stored redis (build_scope r) key s' ≡ some old)
  intercept_taken handle r key old app s valid taken =
      rw (intercept_valid empty_object digest redis handle r key app s valid)
        (intercept_key_taken empty_object digest redis handle r key app s old taken)

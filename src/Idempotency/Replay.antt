-- ===== src/Idempotency/Replay.antt =====
-- What the interceptor guarantees to one request after another.
use task_manager_api.Prelude.{
  ◌∙◌, sym, ℕ, ◌≡◌, inl, inr, true, false, not, Option, none, some, String, arith, if◌then◌else◌,
  str_eq, eq_iff, Result, ok, err, Exception, conflict, Option-cases, Result-cases,
}
use task_manager_api.Platform.Redis.{Redis}
use task_manager_api.Idempotency.{
  IdempotencyRecord, processing, completed, build_key, begun, stored, reserve, complete, release,
  ttl_seconds,
}
use task_manager_api.Idempotency.Interceptor.{
  Request, Fingerprinted, Reply, check_header, build_scope, build_fingerprint, admit, run_handler,
  intercept_key, intercept,
}

module _ {Json : Type 0} (redis : Redis (IdempotencyRecord Json)) (scope key : String) where
  -- `reserve` is decided by the record under the key, and writes one only where there was none.
  pub reserve_free :
      (f : String) (s : redis.Store)
      → stored redis scope key s ≡ none
      → ((reserve redis scope key f s).0 ≡ (true, none))
        × (stored redis scope key (reserve redis scope key f s).1 ≡ some (begun f))
  unfolding reserve stored
  reserve_free f s h = (
    ground (arith, redis.set_ex_nx_reply (build_key scope key) (begun f) ttl_seconds s),
    ground (
      arith,
      eq_iff (build_key scope key) (build_key scope key),
      redis.set_ex_nx_reply (build_key scope key) (begun f) ttl_seconds s,
      redis.get-set_ex_nx (build_key scope key) (build_key scope key) (begun f) ttl_seconds s,
    ),
  )

  pub reserve_taken :
      (f : String) (r : IdempotencyRecord Json) (s : redis.Store)
      → stored redis scope key s ≡ some r
      → ((reserve redis scope key f s).0 ≡ (false, some r))
        × (stored redis scope key (reserve redis scope key f s).1 ≡ some r)
  unfolding reserve stored
  reserve_taken f r s h =
      let flag = redis.set_ex_nx_reply (build_key scope key) (begun f) ttl_seconds s in
      let kept =
        redis.get-set_ex_nx (build_key scope key) (build_key scope key) (begun f) ttl_seconds s in
      (
        ground (arith, eq_iff (build_key scope key) (build_key scope key), flag, kept),
        ground (arith, eq_iff (build_key scope key) (build_key scope key), flag, kept),
      )

  pub stored-complete :
      (r : IdempotencyRecord Json) (s : redis.Store)
      → stored redis scope key (complete redis scope key r s)
        ≡ some (record r { status = completed })
  unfolding stored complete
  stored-complete r s = ground (
    arith,
    eq_iff (build_key scope key) (build_key scope key),
    redis.get-set_ex (build_key scope key) (build_key scope key) (record r { status = completed })
        ttl_seconds s,
  )

  pub stored-release : (s : redis.Store) → stored redis scope key (release redis scope key s) ≡ none
  unfolding stored release
  stored-release s = ground (
    arith,
    eq_iff (build_key scope key) (build_key scope key),
    redis.get-del (build_key scope key) (build_key scope key) s,
  )

module _ {Json : Type 0} (empty_object : Json) (digest : Fingerprinted Json → String)
    (redis : Redis (IdempotencyRecord Json)) where
  abbrev pub print : Request Json → String
  print r = build_fingerprint empty_object digest redis r

  -- A completed request under this key, with the reply that it gave.
  abbrev pub HasReply : Request Json → String → Reply Json → redis.Store → Type 0
  HasReply r key reply s =
      stored redis (build_scope r) key s
      ≡ some (record {
        status = completed;
        fingerprint = print r;
        status_code = reply.status;
        response_body = reply.body;
      })

  module _ {App : Type 0} (handle : App → Result (ℕ × Option Json) × App) (r : Request Json)
      (key : String) (app : App) (s : redis.Store) where
    -- With no record under the key the handler runs, and its reply is kept or the key released.
    pub intercept_key_free :
        stored redis (build_scope r) key s ≡ none
        → intercept_key empty_object digest redis handle key r app s
          ≡ run_handler empty_object digest redis handle
              (build_scope r)
              key
              (print r)
              app
              (reserve redis (build_scope r) key (print r) s).1
    unfolding intercept_key
    intercept_key_free h =
        rw ((reserve_free redis (build_scope r) key (print r) s h).0, intercept_key, admit)

    -- What a stored record answers.
    abbrev pub verdict : IdempotencyRecord Json → Result (Reply Json)
    verdict old = if not (str_eq old.fingerprint (print r)) then err conflict else elim old.status [
      | processing ↦ err conflict
      | completed ↦ ok (record { status = old.status_code; body = old.response_body })
    ]

    -- With a record under the key the handler does not run, and the record answers.
    pub intercept_key_taken :
        (old : IdempotencyRecord Json)
        → stored redis (build_scope r) key s ≡ some old
        → ((intercept_key empty_object digest redis handle key r app s).0 ≡ verdict old)
          × ((intercept_key empty_object digest redis handle key r app s).1 ≡ app)
          × (stored redis
                (build_scope r)
                key
                (intercept_key empty_object digest redis handle key r app s).2
              ≡ some old)
    unfolding intercept_key
    intercept_key_taken old h =
        let (answer, kept) = reserve_taken redis (build_scope r) key (print r) old s h in
        (
          rw (answer, intercept_key, admit) (ground arith),
          rw (answer, intercept_key, admit) (ground arith),
          rw (answer, intercept_key, admit) (ground (arith, kept)),
        )

    pub run_handler-HasReply :
        (reply : Reply Json) (s' : redis.Store)
        → (run_handler empty_object digest redis handle (build_scope r) key (print r) app s').0
          ≡ ok reply
        → HasReply r key reply
            (run_handler empty_object digest redis handle (build_scope r) key (print r) app s').2
    unfolding run_handler
    run_handler-HasReply reply s' h = elim (Result-cases (handle app).0) [
      | inl ((code', body'), done) ↦
          rw (done, run_handler)
            (stored-complete redis (build_scope r) key _ s'
              ∙ ground (arith, rw (done, run_handler) at h))
      | inr (e, failed) ↦ absurd (ground (arith, rw (failed, run_handler) at h))
    ]

    -- The reply is kept for 300 seconds.
    pub run_handler_ttl :
        (reply : Reply Json) (s' : redis.Store)
        → (run_handler empty_object digest redis handle (build_scope r) key (print r) app s').0
          ≡ ok reply
        → redis.ttl
            (build_key (build_scope r) key)
            (run_handler empty_object digest redis handle (build_scope r) key (print r) app s').2
          ≡ some 300
    unfolding run_handler complete
    run_handler_ttl reply s' h = elim (Result-cases (handle app).0) [
      | inl ((code', body'), done) ↦
          let k = build_key (build_scope r) key in
          rw (done, run_handler)
            (redis.ttl-set_ex k k _ ttl_seconds s' ∙ ground (arith, eq_iff k k))
      | inr (e, failed) ↦ absurd (ground (arith, rw (failed, run_handler) at h))
    ]

    verdict-HasReply :
        (old : IdempotencyRecord Json) (reply : Reply Json)
        → verdict old ≡ ok reply
        → some old
          ≡ some (record {
            status = completed;
            fingerprint = print r;
            status_code = reply.status;
            response_body = reply.body;
          })
    verdict-HasReply old reply h = ground (arith, eq_iff old.fingerprint (print r))

    pub intercept_key-HasReply :
        (reply : Reply Json)
        → (intercept_key empty_object digest redis handle key r app s).0 ≡ ok reply
        → HasReply r key reply (intercept_key empty_object digest redis handle key r app s).2
    intercept_key-HasReply reply h = elim (Option-cases (stored redis (build_scope r) key s)) [
      | inl free ↦
          rw (intercept_key_free free)
            (run_handler-HasReply reply _ (rw (intercept_key_free free) at h))
      | inr (old, taken) ↦
          let (answer, same, kept) = intercept_key_taken old taken in
          kept ∙ verdict-HasReply old reply (sym answer ∙ h)
    ]

    pub replay_key :
        (reply : Reply Json)
        → HasReply r key reply s
        → ((intercept_key empty_object digest redis handle key r app s).0 ≡ ok reply)
          × ((intercept_key empty_object digest redis handle key r app s).1 ≡ app)
    replay_key reply h =
        let (answer, same, kept) = intercept_key_taken _ h in
        (answer ∙ ground (arith, eq_iff (print r) (print r)), same)

    pub intercept_valid :
        check_header r.idempotency_key ≡ ok key
        → intercept empty_object digest redis handle r app s
          ≡ intercept_key empty_object digest redis handle key r app s
    unfolding intercept
    intercept_valid h = rw (h, intercept)

    pub intercept_invalid :
        (e : Exception)
        → check_header r.idempotency_key ≡ err e
        → intercept empty_object digest redis handle r app s ≡ (err e, app, s)
    unfolding intercept
    intercept_invalid e h = rw (h, intercept)

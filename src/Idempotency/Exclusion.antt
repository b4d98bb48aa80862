-- ===== src/Idempotency/Exclusion.antt =====
-- Concurrent requests: of all that reserve one key, one runs, over any order of the calls, while its
-- record lasts.
use task_manager_api.Prelude.{
  ◌≡◌, ◌≢◌, inl, inr, true, false, List, [], ◌∷◌, ℕ, ◌+◌, ◌<◌, Option, some, none, refl, String,
  arith, All, eq_iff, Option-cases, is_some,
}
use task_manager_api.Platform.Redis.{Redis, lasts, left_after}
use task_manager_api.Idempotency.{
  IdempotencyRecord, completed, build_key, begun, stored, reserve, complete, release, ttl_seconds,
}
use task_manager_api.Idempotency.Replay.{reserve_taken}

-- The calls of the interceptor on the store, by requests that run side by side, and the seconds that
-- pass between them.
pub data Call (Json : Type 0) : Type 0 where
  reserves : String → String → String → Call Json
  completes : String → String → IdempotencyRecord Json → Call Json
  releases : String → String → Call Json
  waits : (seconds : ℕ) → Call Json

module _ {Json : Type 0} (redis : Redis (IdempotencyRecord Json)) where
  abbrev pub after : Call Json → redis.Store → redis.Store
  after (reserves scope key f) s = (reserve redis scope key f s).1
  after (completes scope key r) s = complete redis scope key r s
  after (releases scope key) s = release redis scope key s
  after (waits d) s = redis.elapse d s

  abbrev pub run : List (Call Json) → redis.Store → redis.Store
  run [] s = s
  run (c ∷ cs) s = run cs (after c s)

  abbrev pub duration : Call Json → ℕ
  duration (waits d) = d
  duration _ = 0

  -- The seconds that pass over the calls.
  abbrev pub waited : List (Call Json) → ℕ
  waited [] = 0
  waited (c ∷ cs) = duration c + waited cs

  -- The call is not the release of this Redis key.
  abbrev pub Spares : String → Call Json → Type 0
  Spares k (releases scope key) = build_key scope key ≢ k
  Spares k c = Unit

  -- The call neither releases nor completes this Redis key.
  abbrev pub Leaves : String → Call Json → Type 0
  Leaves k (releases scope key) = build_key scope key ≢ k
  Leaves k (completes scope key r) = build_key scope key ≢ k
  Leaves k c = Unit

  -- The key is there, and will be for n seconds more.
  abbrev Lasts : String → ℕ → redis.Store → Type 0
  Lasts k n s = (is_some (redis.get k s) ≡ true) × (lasts n (redis.ttl k s) ≡ true)

  lasts_split :
      (d m : ℕ) (t : Option ℕ)
      → lasts (d + m) t ≡ true
      → (lasts d t ≡ true) × (lasts m (left_after d t) ≡ true)
  lasts_split d m none h = (refl, refl)
  lasts_split d m (some t) h = (ground (arith, h), ground (arith, h))

  after-Lasts :
      (k : String) (c : Call Json) (m : ℕ) (s : redis.Store)
      → Spares k c
      → m < 300
      → Lasts k (duration c + m) s
      → Lasts k m (after c s)
  unfolding reserve complete release
  after-Lasts k (reserves scope key f) m s n few (here, long) =
      let got = redis.get-set_ex_nx (build_key scope key) k (begun f) ttl_seconds s in
      let left = redis.ttl-set_ex_nx (build_key scope key) k (begun f) ttl_seconds s in
      let same = eq_iff (build_key scope key) k in
      (ground (arith, got, here), ground (arith, left, here, long, same))
  after-Lasts k (completes scope key r) m s n few (here, long) =
      let got =
        redis.get-set_ex (build_key scope key) k (record r { status = completed }) ttl_seconds s in
      let left =
        redis.ttl-set_ex (build_key scope key) k (record r { status = completed }) ttl_seconds s in
      (ground (arith, got, here), ground (arith, left, long, few))
  after-Lasts k (releases scope key) m s n few (here, long) =
      let got = redis.get-del (build_key scope key) k s in
      let left = redis.ttl-del (build_key scope key) k s in
      let same = eq_iff (build_key scope key) k in
      (ground (arith, got, here, same), ground (arith, left, long, same))
  after-Lasts k (waits d) m s n few (here, long) =
      let (now, later) = lasts_split d m (redis.ttl k s) long in
      (ground (arith, redis.get-elapse d k s, now, here), rw (redis.ttl-elapse d k s, now) later)

  run-Lasts :
      (k : String) (cs : List (Call Json)) (s : redis.Store)
      → All (Spares k) cs
      → waited cs < 300
      → Lasts k (waited cs) s
      → is_some (redis.get k (run cs s)) ≡ true
  run-Lasts k [] s ns few h = h.0
  run-Lasts k (c ∷ cs) s ns few h =
      run-Lasts k cs (after c s) ns.1 (omega (arith, few))
        (after-Lasts k c (waited cs) s ns.0 (omega (arith, few)) h)

  taken_refuses :
      (scope key f : String) (s : redis.Store)
      → is_some (redis.get (build_key scope key) s) ≡ true
      → (reserve redis scope key f s).0.0 ≡ false
  unfolding stored
  taken_refuses scope key f s h = elim (Option-cases (stored redis scope key s)) [
    | inl free ↦ absurd (ground arith)
    | inr (r, taken) ↦ ground (arith, (reserve_taken redis scope key f r s taken).0)
  ]

  -- What the request that acquires a key leaves under it.
  pub acquired_record :
      (scope key f : String) (s : redis.Store)
      → (reserve redis scope key f s).0.0 ≡ true
      → let s' = (reserve redis scope key f s).1 in
        (is_some (redis.get (build_key scope key) s') ≡ true)
        × (redis.ttl (build_key scope key) s' ≡ some 300)
  unfolding reserve
  acquired_record scope key f s h =
      let k = build_key scope key in
      let same = eq_iff k k in
      let got = redis.get-set_ex_nx k k (begun f) ttl_seconds s in
      let left = redis.ttl-set_ex_nx k k (begun f) ttl_seconds s in
      let reply = redis.set_ex_nx_reply k (begun f) ttl_seconds s in
      (ground (arith, got, same), ground (arith, left, same, reply, h))

  -- After a request has acquired a key, no other one acquires it within 300 seconds, whatever calls
  -- come between, unless the key is released.
  pub reserve_exclusive :
      (scope key f f' : String) (cs : List (Call Json)) (s : redis.Store)
      → (reserve redis scope key f s).0.0 ≡ true
      → All (Spares (build_key scope key)) cs
      → waited cs < 300
      → (reserve redis scope key f' (run cs (reserve redis scope key f s).1)).0.0 ≡ false
  reserve_exclusive scope key f f' cs s first ns few =
      let (here, left) = acquired_record scope key f s first in
      taken_refuses scope key f' _ (
        run-Lasts (build_key scope key) cs (reserve redis scope key f s).1 ns few
          (here, rw left (ground (arith, few))))

  -- The record stays as it is while it lasts.
  after-Leaves :
      (k : String) (c : Call Json) (m : ℕ) (r : IdempotencyRecord Json) (s : redis.Store)
      → Leaves k c
      → (redis.get k s ≡ some r) × (lasts (duration c + m) (redis.ttl k s) ≡ true)
      → (redis.get k (after c s) ≡ some r) × (lasts m (redis.ttl k (after c s)) ≡ true)
  unfolding reserve complete release
  after-Leaves k (reserves scope key f) m r s n (here, long) =
      let got = redis.get-set_ex_nx (build_key scope key) k (begun f) ttl_seconds s in
      let left = redis.ttl-set_ex_nx (build_key scope key) k (begun f) ttl_seconds s in
      let same = eq_iff (build_key scope key) k in
      (ground (arith, got, here, same), ground (arith, left, here, long, same))
  after-Leaves k (completes scope key r') m r s n (here, long) =
      let got =
        redis.get-set_ex (build_key scope key) k (record r' { status = completed }) ttl_seconds s in
      let left =
        redis.ttl-set_ex (build_key scope key) k (record r' { status = completed }) ttl_seconds s in
      let same = eq_iff (build_key scope key) k in
      (ground (arith, got, here, same), ground (arith, left, long, same))
  after-Leaves k (releases scope key) m r s n (here, long) =
      let got = redis.get-del (build_key scope key) k s in
      let left = redis.ttl-del (build_key scope key) k s in
      let same = eq_iff (build_key scope key) k in
      (ground (arith, got, here, same), ground (arith, left, long, same))
  after-Leaves k (waits d) m r s n (here, long) =
      let (now, later) = lasts_split d m (redis.ttl k s) long in
      (ground (arith, redis.get-elapse d k s, now, here), rw (redis.ttl-elapse d k s, now) later)

  pub run-Leaves :
      (k : String) (cs : List (Call Json)) (r : IdempotencyRecord Json) (s : redis.Store)
      → All (Leaves k) cs
      → redis.get k s ≡ some r
      → lasts (waited cs) (redis.ttl k s) ≡ true
      → redis.get k (run cs s) ≡ some r
  run-Leaves k [] r s ns here long = here
  run-Leaves k (c ∷ cs) r s ns here long =
      let (here', long') = after-Leaves k c (waited cs) r s ns.0 (here, long) in
      run-Leaves k cs r (after c s) ns.1 here' long'

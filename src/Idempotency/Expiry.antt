-- ===== src/Idempotency/Expiry.antt =====
-- A key that a request has reserved and that nobody answers for: src/common/idempotency keeps it for
-- 300 seconds and no longer.
use task_manager_api.Prelude.{
  ℕ, ◌+◌, ◌-◌, ◌≤◌, ◌≡◌, ◌≢◌, refl, ◌∙◌, subst, ◌⊎◌, inl, inr, true, some, none, List, [], ◌∷◌,
  String, arith, All, eq_iff, Bool-cases, ltb,
}
use task_manager_api.Platform.Redis.{Redis}
use task_manager_api.Idempotency.{
  IdempotencyRecord, completed, build_key, begun, reserve, complete, release, ttl_seconds,
}
use task_manager_api.Idempotency.Exclusion.{
  Call, reserves, completes, releases, waits, after, run, duration, waited, acquired_record,
}

module _ {Json : Type 0} (redis : Redis (IdempotencyRecord Json)) where
  -- The call is about other keys.
  abbrev pub IsElsewhere : String → Call Json → Type 0
  IsElsewhere k (reserves scope key f) = build_key scope key ≢ k
  IsElsewhere k (releases scope key) = build_key scope key ≢ k
  IsElsewhere k (completes scope key r) = build_key scope key ≢ k
  IsElsewhere k (waits d) = Unit

  -- The key is gone, or will be after at most n seconds.
  abbrev Ends : String → ℕ → redis.Store → Type 0
  Ends k n s = (redis.get k s ≡ none) ⊎ ((t : ℕ) × (redis.ttl k s ≡ some t) × (1 ≤ t) × (t ≤ n))

  -- Nothing that is kept of the key changes.
  IsSame : String → redis.Store → redis.Store → Type 0
  IsSame k s s' = (redis.get k s' ≡ redis.get k s) × (redis.ttl k s' ≡ redis.ttl k s)

  Ends-IsSame :
      (k : String) (n : ℕ) (s s' : redis.Store) → IsSame k s s' → Ends k (0 + n) s → Ends k n s'
  unfolding IsSame
  Ends-IsSame k n s s' (got, left) (inl gone) = inl (got ∙ gone)
  Ends-IsSame k n s s' (got, left) (inr (t, here, some_left, few)) =
      inr (t, left ∙ here, some_left, omega (arith, few))

  after-Ends :
      (k : String) (c : Call Json) (m : ℕ) (s : redis.Store)
      → IsElsewhere k c
      → Ends k (duration redis c + m) s
      → Ends k m (after redis c s)
  unfolding reserve complete release IsSame
  after-Ends k (reserves scope key f) m s n h =
      let got = redis.get-set_ex_nx (build_key scope key) k (begun f) ttl_seconds s in
      let left = redis.ttl-set_ex_nx (build_key scope key) k (begun f) ttl_seconds s in
      let other = eq_iff (build_key scope key) k in
      Ends-IsSame k m s _ (ground (arith, got, other), ground (arith, left, other)) h
  after-Ends k (completes scope key r) m s n h =
      let r' : IdempotencyRecord Json = record r { status = completed } in
      let got = redis.get-set_ex (build_key scope key) k r' ttl_seconds s in
      let left = redis.ttl-set_ex (build_key scope key) k r' ttl_seconds s in
      let other = eq_iff (build_key scope key) k in
      Ends-IsSame k m s _ (ground (arith, got, other), ground (arith, left, other)) h
  after-Ends k (releases scope key) m s n h =
      let got = redis.get-del (build_key scope key) k s in
      let left = redis.ttl-del (build_key scope key) k s in
      let other = eq_iff (build_key scope key) k in
      Ends-IsSame k m s _ (ground (arith, got, other), ground (arith, left, other)) h
  after-Ends k (waits d) m s n (inl gone) = inl (ground (arith, redis.get-elapse d k s, gone))
  after-Ends k (waits d) m s n (inr (t, here, some_left, few)) =
      let got = redis.get-elapse d k s in
      let left = redis.ttl-elapse d k s in
      elim (Bool-cases (ltb d t)) [
        | inl long ↦
            inr (t - d, left ∙ rw (here, long) refl, ground (arith, long), omega (arith, few))
        | inr over ↦ inl (got ∙ rw (here, over) refl)
      ]

  run-Ends :
      (k : String) (cs : List (Call Json)) (m : ℕ) (s : redis.Store)
      → All (IsElsewhere k) cs
      → Ends k (waited redis cs + m) s
      → Ends k m (run redis cs s)
  run-Ends k [] m s ns h =
      let e : waited redis [] + m ≡ m = omega arith in subst (λ x. Ends k x s) e h
  run-Ends k (c ∷ cs) m s ns h =
      let e : duration redis c + waited redis cs + m ≡ duration redis c + (waited redis cs + m) =
        omega arith in
      run-Ends k cs m (after redis c s) ns.1
        (after-Ends k c (waited redis cs + m) s ns.0 (subst (λ x. Ends k x s) e h))

  gone_acquires :
      (scope key f : String) (s : redis.Store)
      → Ends (build_key scope key) 0 s
      → (reserve redis scope key f s).0.0 ≡ true
  unfolding reserve
  gone_acquires scope key f s (inr (t, here, some_left, few)) =
      absurd (omega (arith, some_left, few))
  gone_acquires scope key f s (inl gone) =
      ground (arith, redis.set_ex_nx_reply (build_key scope key) (begun f) ttl_seconds s, gone)

  -- A key that a request has acquired and nobody completes, releases or reserves is free again after
  -- 300 seconds: a request whose server stops does not block its key for ever.
  pub reserve_runs_out :
      (scope key f f' : String) (cs : List (Call Json)) (s : redis.Store)
      → (reserve redis scope key f s).0.0 ≡ true
      → All (IsElsewhere (build_key scope key)) cs
      → 300 ≤ waited redis cs
      → (reserve redis scope key f' (run redis cs (reserve redis scope key f s).1)).0.0 ≡ true
  reserve_runs_out scope key f f' cs s first ns long =
      let (here, left) = acquired_record redis scope key f s first in
      gone_acquires scope key f' _ (
        run-Ends (build_key scope key) cs 0 (reserve redis scope key f s).1 ns
          (inr (300, left, omega arith, omega (arith, long))))

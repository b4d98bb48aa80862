-- ===== src/Outbox/Claims.antt =====
-- Claiming an event over any schedule of repository calls: one claim at a time, and an end.
use task_manager_api.Prelude.{
  ℕ, ◌+◌, ◌≤◌, ◌≡◌, refl, inl, inr, ◌⊎◌, ◌≢◌, none, some, List, [], ◌∷◌, arith, ◌==◌, if◌then◌else◌,
  All,
}
use task_manager_api.Platform.Collection.{Collection}
use task_manager_api.Outbox.{
  OutboxEvent, processing, completed, is_claimable, start, finish, give_up, postpone,
  mark_processing,
}
use task_manager_api.Outbox.Lifecycle.{
  Call, claims, fails, Trace, here, later, Transition, same, claim, complete, exhaust, retry,
  Step-Transition,
}

abbrev pub tries : ℕ → Call → ℕ
tries j (claims i) = if i == j then 1 else 0
tries j c = 0

-- How often a schedule tries to claim the event j.
abbrev pub claim_count : ℕ → List Call → ℕ
claim_count j [] = 0
claim_count j (c ∷ cs) = tries j c + claim_count j cs

module _ {Payload : Type 0} (db : Collection (OutboxEvent Payload)) (j : ℕ) where
  open db use {Store, find_by_id, find_one_and_update}

  abbrev IsHeld : OutboxEvent Payload → Type 0
  IsHeld e = (e.status ≡ processing) ⊎ (e.status ≡ completed)

  Transition-completed :
      {c : Call} {e e' : OutboxEvent Payload}
      → Transition db j e c e'
      → e.status ≡ completed
      → e' ≡ e
  Transition-completed same h = refl
  Transition-completed (claim q m) h = ground arith
  Transition-completed (complete now q m) h = ground arith
  Transition-completed (exhaust error q m n) h = ground arith
  Transition-completed (retry error at q m n) h = ground arith

  Transition-IsHeld :
      {c : Call} {e e' : OutboxEvent Payload}
      → Transition db j e c e'
      → c ≢ fails j
      → IsHeld e
      → IsHeld e'
  unfolding finish
  Transition-IsHeld same n h = h
  Transition-IsHeld (claim q m) n h = ground arith
  Transition-IsHeld (complete now q m) n h = inr refl
  Transition-IsHeld (exhaust error q m k) n h = absurd (n q)
  Transition-IsHeld (retry error at q m k) n h = absurd (n q)

  Transition-attempts :
      {c : Call} {e e' : OutboxEvent Payload}
      → Transition db j e c e'
      → (e.attempts ≤ e'.attempts) × (e'.attempts ≤ e.attempts + tries j c)
  unfolding start finish give_up postpone
  Transition-attempts same = omega arith
  Transition-attempts (claim q m) = ground arith
  Transition-attempts (complete now q m) = omega arith
  Transition-attempts (exhaust error q m n) = omega arith
  Transition-attempts (retry error none q m n) = omega arith
  Transition-attempts (retry error (some at) q m n) = omega arith

  -- A completed event is never changed again, whatever calls follow.
  pub completed_final :
      (s t : Store) (cs : List Call) (e : OutboxEvent Payload)
      → find_by_id j s ≡ some e
      → e.status ≡ completed
      → Trace db s cs t
      → find_by_id j t ≡ some e
  completed_final s t cs e f h here = f
  completed_final s t cs e f h (later {t = m} {c = c} {cs = ds} st tr) =
      let (e', f', tn) = Step-Transition db j e s f c m st in
      completed_final m t ds e (rw (Transition-completed tn h) at f') h tr

  Trace-IsHeld :
      (s t : Store) (cs : List Call) (e : OutboxEvent Payload)
      → find_by_id j s ≡ some e
      → IsHeld e
      → All (λ c. c ≢ fails j) cs
      → Trace db s cs t
      → (e' : OutboxEvent Payload) × (find_by_id j t ≡ some e') × IsHeld e'
  Trace-IsHeld s t cs e f h ns here = (e, f, h)
  Trace-IsHeld s t cs e f h ns (later {t = m} {c = c} {cs = ds} st tr) =
      let (e', f', tn) = Step-Transition db j e s f c m st in
      Trace-IsHeld m t ds e' f' (Transition-IsHeld tn ns.0 h) ns.1 tr

  mark_processing_held :
      (s : Store) (e : OutboxEvent Payload)
      → find_by_id j s ≡ some e
      → IsHeld e
      → (mark_processing db j s).0 ≡ none
  unfolding mark_processing
  mark_processing_held s e f h =
      ground (arith, db.update_returns j (λ e. is_claimable e.status) start s)

  claimed_found :
      (s : Store) (e : OutboxEvent Payload)
      → (mark_processing db j s).0 ≡ some e
      → (find_by_id j (mark_processing db j s).1 ≡ some e) × (e.status ≡ processing)
  unfolding mark_processing start
  claimed_found s e h = (
    ground (
      arith,
      db.update_returns j (λ e. is_claimable e.status) start s,
      db.find-update j j (λ e. is_claimable e.status) start s,
    ),
    ground (arith, db.update_returns j (λ e. is_claimable e.status) start s),
  )

  -- Once a claim of the event has succeeded, no later claim succeeds in any schedule that does not
  -- first report a failure of that event.
  pub claim_exclusive :
      (s t : Store) (cs : List Call) (e : OutboxEvent Payload)
      → (mark_processing db j s).0 ≡ some e
      → All (λ c. c ≢ fails j) cs
      → Trace db (mark_processing db j s).1 cs t
      → (mark_processing db j t).0 ≡ none
  claim_exclusive s t cs e h ns tr =
      let (f, p) = claimed_found s e h in
      let (e', f', held) = Trace-IsHeld (mark_processing db j s).1 t cs e f (inl p) ns tr in
      mark_processing_held t e' f' held

  -- The attempts of an event never fall, and grow at most once for each claim of it.
  pub attempts_bounds :
      (s t : Store) (cs : List Call) (e : OutboxEvent Payload)
      → find_by_id j s ≡ some e
      → Trace db s cs t
      → (e' : OutboxEvent Payload) × (find_by_id j t ≡ some e')
        × (e.attempts ≤ e'.attempts)
        × (e'.attempts ≤ e.attempts + claim_count j cs)
  attempts_bounds s t cs e f here = (e, f, omega arith, omega arith)
  attempts_bounds s t cs e f (later {t = m} {c = c} {cs = ds} st tr) =
      let (e', f', tn) = Step-Transition db j e s f c m st in
      let (lo, hi) = Transition-attempts tn in
      let (x, fx, lx, hx) = attempts_bounds m t ds e' f' tr in (x, fx, omega arith, omega arith)

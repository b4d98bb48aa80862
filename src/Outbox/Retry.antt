-- ===== src/Outbox/Retry.antt =====
-- When an event is due again: the filter of `findPending` against the updates of `markFailed`.
use task_manager_api.Prelude.{
  ℕ, ◌≤◌, ◌<◌, ◌≡◌, true, some, String, arith, if◌then◌else◌, leb, length, any, All, All-map,
}
use task_manager_api.Platform.Collection.{Collection, has_id}
use task_manager_api.Outbox.{
  OutboxEvent, processing, is_claimable, is_processing, max_attempts, is_due, start, give_up,
  postpone, find_pending, mark_processing, mark_failed,
}

-- The document after a reported failure.
unfoldable pub failure : {Payload : Type 0} → OutboxEvent Payload → String → ℕ → OutboxEvent Payload
failure e error next =
    if leb max_attempts e.attempts then give_up error e else postpone error (some next) e

module _ {Payload : Type 0} (db : Collection (OutboxEvent Payload)) where
  open db use {Store, find_by_id, find_one_and_update}

  module _ (j : ℕ) (e : OutboxEvent Payload) (s : Store) (error : String) (next : ℕ) where
    pub find-mark_failed :
        find_by_id j s ≡ some e
        → e.status ≡ processing
        → find_by_id j (mark_failed db j error (some next) s).1 ≡ some (failure e error next)
    unfolding mark_failed failure
    find-mark_failed f p = ground (
      arith,
      db.find-update j j (λ e. is_processing e.status) (give_up error) s,
      db.find-update j j (λ e. is_processing e.status) (postpone error (some next)) s,
    )

    failure-is_due :
        (now : ℕ)
        → is_due now (failure e error next)
          ≡ (if leb max_attempts e.attempts then true else leb next now)
    unfolding failure is_due give_up postpone
    failure-is_due now = ground arith

    -- After a reported failure of an event in PROCESSING, an event with fewer than five attempts
    -- waits for its next time, and one with five or more is due at any time whatever.
    pub mark_failed-is_due :
        (now : ℕ)
        → find_by_id j s ≡ some e
        → e.status ≡ processing
        → (e' : OutboxEvent Payload) × (find_by_id j (mark_failed db j error (some next) s).1
            ≡ some e')
          × (is_due now e' ≡ (if leb max_attempts e.attempts then true else leb next now))
    mark_failed-is_due now f p = (failure e error next, find-mark_failed f p, failure-is_due now)

    -- After a reported failure, an event in PROCESSING with five attempts or more is found again by
    -- the next round, at any time, where that round finds fewer events than its limit.
    pub exhausted_found_again :
        (limit now : ℕ)
        → find_by_id j s ≡ some e
        → e.status ≡ processing
        → max_attempts ≤ e.attempts
        → length (find_pending db limit now (mark_failed db j error (some next) s).1) < limit
        → any (has_id j) (find_pending db limit now (mark_failed db j error (some next) s).1) ≡ true
    unfolding find_pending
    exhausted_found_again limit now f p spent room =
        db.find_complete (is_due now) (λ e. e.created_at) limit j (failure e error next) _
          (find-mark_failed f p) (ground (arith, failure-is_due now)) room

  claim_due :
      (now : ℕ) (s : Store) (x : ℕ × OutboxEvent Payload)
      → (find_by_id x.0 s ≡ some x.1) × (is_due now x.1 ≡ true)
      → (mark_processing db x.0 s).0 ≡ some (start x.1)
  unfolding mark_processing is_due
  claim_due now s (i, e) (f, d) =
      ground (arith, db.update_returns i (λ e. is_claimable e.status) start s)

  -- Every event that `findPending` returns can be claimed in that store.
  pub find_pending-claimable :
      (limit now : ℕ) (s : Store)
      → All (λ x. (mark_processing db x.0 s).0 ≡ some (start x.1)) (find_pending db limit now s)
  unfolding find_pending
  find_pending-claimable limit now s =
      All-map (claim_due now s) _ (db.find_sound (is_due now) (λ e. e.created_at) limit s)

-- ===== src/Outbox/Dispatcher/Round.antt =====
-- What a round of the dispatcher does to each event.
use task_manager_api.Prelude.{
  ℕ, ◌+◌, ◌≡◌, refl, ◌≢◌, ◌⊎◌, inl, inr, true, false, none, some, String, arith, Option-cases, ◌∙◌,
}
use task_manager_api.Platform.Collection.{Collection}
use task_manager_api.Platform.Queues.{Queues, Added, added, refused}
use task_manager_api.Outbox.{
  OutboxEvent, processing, is_claimable, is_processing, start, finish, give_up, postpone,
  mark_processing, mark_completed, mark_failed,
}
use task_manager_api.Outbox.Retry.{failure, find-mark_failed}
use task_manager_api.Outbox.Dispatcher.{Job, World, retry_delay, enqueue, settle, dispatch_event}

module _ {Payload : Type 0} (db : Collection (OutboxEvent Payload)) (mq : Queues (Job Payload))
    (clock : ℕ → ℕ) where
  open db use {Store, find_by_id}

  Added-cases :
      (a : Added mq.Store) → ((q : mq.Store) × (a ≡ added q)) ⊎ ((m : String) × (a ≡ refused m))
  Added-cases (added q) = inl (q, refl)
  Added-cases (refused m) = inr (m, refl)

  start-status : (d : OutboxEvent Payload) → (start d).status ≡ processing
  unfolding start
  start-status d = refl

  module _ (i : ℕ) (s : Store) where
    find-mark_processing_ne :
        (j : ℕ) → i ≢ j → find_by_id j (mark_processing db i s).1 ≡ find_by_id j s
    unfolding mark_processing
    find-mark_processing_ne j h =
        ground (arith, db.find-update i j (λ e. is_claimable e.status) start s)

    find-mark_completed_ne :
        (now j : ℕ) → i ≢ j → find_by_id j (mark_completed db i now s).1 ≡ find_by_id j s
    unfolding mark_completed
    find-mark_completed_ne now j h =
        ground (arith, db.find-update i j (λ e. is_processing e.status) (finish now) s)

    find-mark_failed_ne :
        (m : String) (t j : ℕ)
        → i ≢ j
        → find_by_id j (mark_failed db i m (some t) s).1 ≡ find_by_id j s
    unfolding mark_failed
    find-mark_failed_ne m t j h = ground (
      arith,
      db.find-update i j (λ e. is_processing e.status) (give_up m) s,
      db.find-update i j (λ e. is_processing e.status) (postpone m (some t)) s,
    )

    find-mark_completed :
        (now : ℕ) (d : OutboxEvent Payload)
        → find_by_id i s ≡ some d
        → d.status ≡ processing
        → find_by_id i (mark_completed db i now s).1 ≡ some (finish now d)
    unfolding mark_completed
    find-mark_completed now d f p =
        ground (arith, db.find-update i i (λ e. is_processing e.status) (finish now) s)

    mark_processing_hit :
        (d : OutboxEvent Payload)
        → find_by_id i s ≡ some d
        → is_claimable d.status ≡ true
        → ((mark_processing db i s).0 ≡ some (start d))
          × (find_by_id i (mark_processing db i s).1 ≡ some (start d))
    unfolding mark_processing
    mark_processing_hit d f p = (
      ground (arith, db.update_returns i (λ e. is_claimable e.status) start s),
      ground (arith, db.find-update i i (λ e. is_claimable e.status) start s),
    )

    mark_processing_miss :
        (d : OutboxEvent Payload)
        → find_by_id i s ≡ some d
        → is_claimable d.status ≡ false
        → ((mark_processing db i s).0 ≡ none) × (find_by_id i (mark_processing db i s).1 ≡ some d)
    unfolding mark_processing
    mark_processing_miss d f p = (
      ground (arith, db.update_returns i (λ e. is_claimable e.status) start s),
      ground (arith, db.find-update i i (λ e. is_claimable e.status) start s),
    )

  -- Handling one event touches no other document.
  pub dispatch_event-other :
      (i j : ℕ) (e : OutboxEvent Payload) (w : World db mq)
      → i ≢ j
      → find_by_id j (dispatch_event db mq clock (i, e) w).events ≡ find_by_id j w.events
  unfolding dispatch_event settle
  dispatch_event-other i j e w h =
      let claimed = mark_processing db i w.events in
      let frame = find-mark_processing_ne i w.events j h in
      elim (Option-cases claimed.0) [
        | inl lost ↦ rw (lost, dispatch_event) frame
        | inr (d, won) ↦ elim (Added-cases (enqueue db mq i e w.queues)) [
          | inl (q, sent) ↦
              rw (won, sent, dispatch_event, settle)
                (find-mark_completed_ne i claimed.1 (clock i) j h ∙ frame)
          | inr (m, broke) ↦
              rw (won, broke, dispatch_event, settle)
                (find-mark_failed_ne i claimed.1 m (clock i + retry_delay e.attempts) j h ∙ frame)
        ]
      ]

  -- What the body of the loop leaves of a document d that it claims: sent and completed, or
  -- failed with the error and nothing sent.
  abbrev pub Settled :
      ℕ → OutboxEvent Payload → OutboxEvent Payload → World db mq → World db mq → Type 0
  Settled i e d w w' =
      ((q : mq.Store) × (enqueue db mq i e w.queues ≡ added q)
        × (w'.queues ≡ q)
        × (find_by_id i w'.events ≡ some (finish (clock i) (start d))))
      ⊎ ((m : String) × (enqueue db mq i e w.queues ≡ refused m)
          × (w'.queues ≡ w.queues)
          × (find_by_id i w'.events
              ≡ some (failure (start d) m (clock i + retry_delay e.attempts))))

  pub dispatch_event-Settled :
      (i : ℕ) (e d : OutboxEvent Payload) (w : World db mq)
      → find_by_id i w.events ≡ some d
      → is_claimable d.status ≡ true
      → Settled i e d w (dispatch_event db mq clock (i, e) w)
  unfolding dispatch_event settle
  dispatch_event-Settled i e d w f c =
      let claimed = mark_processing db i w.events in
      let (won, held) = mark_processing_hit i w.events d f c in
      elim (Added-cases (enqueue db mq i e w.queues)) [
        | inl (q, sent) ↦ inl (
          q,
          sent,
          rw (won, sent, dispatch_event, settle),
          rw (won, sent, dispatch_event, settle)
              (find-mark_completed i claimed.1 (clock i) (start d) held (start-status d)),
        )
        | inr (m, broke) ↦ inr (
          m,
          broke,
          rw (won, broke, dispatch_event, settle),
          rw (won, broke, dispatch_event, settle)
              (find-mark_failed db i (start d) claimed.1 m _ held (start-status d)),
        )
      ]

  pub dispatch_event-skipped :
      (i : ℕ) (e d : OutboxEvent Payload) (w : World db mq)
      → find_by_id i w.events ≡ some d
      → is_claimable d.status ≡ false
      → (find_by_id i (dispatch_event db mq clock (i, e) w).events ≡ some d)
        × ((dispatch_event db mq clock (i, e) w).queues ≡ w.queues)
  unfolding dispatch_event
  dispatch_event-skipped i e d w f c =
      let (lost, kept) = mark_processing_miss i w.events d f c in
      (rw (lost, dispatch_event) kept, rw (lost, dispatch_event))

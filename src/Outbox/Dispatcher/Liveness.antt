-- ===== src/Outbox/Dispatcher/Liveness.antt =====
-- A due event whose queue takes its job is sent by the end of the round.
use task_manager_api.Prelude.{
  ℕ, ◌<◌, ◌≡◌, refl, inl, inr, true, some, List, [], ◌∷◌, arith, All, All-map, any, length,
}
use task_manager_api.Platform.Collection.{Collection, has_id}
use task_manager_api.Platform.Queues.{Queues, QueueName, added}
use task_manager_api.Outbox.{
  OutboxEvent, completed, is_claimable, is_due, start, finish, find_pending,
}
use task_manager_api.Outbox.Dispatcher.{
  Job, World, get_queue, job_of, enqueue, dispatch_event, dispatch_all, dispatch_pending,
}
use task_manager_api.Outbox.Dispatcher.Round.{Settled}
use task_manager_api.Outbox.Dispatcher.Delivery.{round_cases}
use task_manager_api.Outbox.Dispatcher.Sent.{
  Matches, dispatch_event-Matches, dispatch_event-keeps, matched_type, find_pending-Matches,
}

module _ {Payload : Type 0} (db : Collection (OutboxEvent Payload))
    (mq : Queues (Job Payload)) where
  open db use {Store, find_by_id}

  module _ (clock : ℕ → ℕ) where
    module _ (j : ℕ) (q : QueueName) where
      abbrev pub IsDone : World db mq → Type 0
      IsDone w =
          (e : OutboxEvent Payload) × (find_by_id j w.events ≡ some e)
          × (e.status ≡ completed)
          × (mq.has_job q j w.queues ≡ true)

      dispatch_event-IsDone :
          (x : ℕ × OutboxEvent Payload) (w : World db mq)
          → IsDone w
          → IsDone (dispatch_event db mq clock x w)
      dispatch_event-IsDone (i, e) w (d, f, c, k) =
          let kept = dispatch_event-keeps db mq clock j q (i, e) w k in
          round_cases db mq clock IsDone i j e d w f (λ n g. (d, g, c, kept))
            (λ n b g s. (d, g, c, kept)) (λ n b h. absurd (ground arith))

      dispatch_all-IsDone :
          (xs : List (ℕ × OutboxEvent Payload)) (w : World db mq)
          → IsDone w
          → IsDone (dispatch_all db mq clock xs w)
      unfolding dispatch_all
      dispatch_all-IsDone [] w d = d
      dispatch_all-IsDone (x ∷ xs) w d =
          dispatch_all-IsDone xs (dispatch_event db mq clock x w) (dispatch_event-IsDone x w d)

      -- The queue takes every job for this event.
      abbrev pub Accepts : Type 0
      Accepts = (job : Job Payload) (s : mq.Store) → (s' : mq.Store) × (mq.add q j job s ≡ added s')

      finish-completed : (d : OutboxEvent Payload) (t : ℕ) → (finish t d).status ≡ completed
      unfolding finish
      finish-completed d t = refl

      enqueue_accepted :
          (e : OutboxEvent Payload) (s : mq.Store)
          → Accepts
          → get_queue e.event_type ≡ some q
          → (s' : mq.Store) × (enqueue db mq j e s ≡ added s') × (mq.has_job q j s' ≡ true)
      unfolding enqueue
      enqueue_accepted e s ac known =
          let (s', sent) = ac (job_of j e) s in
          (s', ground arith, mq.added_has q j (job_of j e) s s' sent)

      module _ (ac : Accepts) (d : OutboxEvent Payload) (known : get_queue d.event_type ≡ some q)
          (c : is_claimable d.status ≡ true) where
        Settled-IsDone :
            (e : OutboxEvent Payload) (w w' : World db mq)
            → d.event_type ≡ e.event_type
            → Settled db mq clock j e d w w'
            → IsDone w'
        Settled-IsDone e w w' t h =
            let (s', sent, has) = enqueue_accepted e w.queues ac (rw (← t) known) in
            elim h [
              | inl (s, a, b, f) ↦ (
                finish (clock j) (start d),
                f,
                finish-completed (start d) (clock j),
                let same : w'.queues ≡ s' = ground arith in rw same has,
              )
              | inr (m, a, b, f) ↦ absurd (ground arith)
            ]

        dispatch_all_sends :
            (xs : List (ℕ × OutboxEvent Payload)) (w : World db mq)
            → find_by_id j w.events ≡ some d
            → All (Matches db mq clock w) xs
            → any (has_id j) xs ≡ true
            → IsDone (dispatch_all db mq clock xs w)
        unfolding dispatch_all
        dispatch_all_sends [] w f ms h = cc
        dispatch_all_sends ((i, e) ∷ xs) w f (m, ms) h =
            let next = dispatch_event db mq clock (i, e) w in
            let ms' = All-map (λ y. dispatch_event-Matches db mq clock (i, e) y w) xs ms in
            round_cases db mq clock
              (λ w'. All (Matches db mq clock w') xs → IsDone (dispatch_all db mq clock xs w')) i j
              e d w f (λ n g ks. dispatch_all_sends xs next g ks (ground arith))
              (λ n b g s ks. absurd (ground arith))
              (λ n b st ks.
                dispatch_all-IsDone xs next
                  (Settled-IsDone e w next (matched_type db mq clock j i e d w m n f) st))
              ms'

      found :
          (limit now : ℕ) (w : World db mq) (d : OutboxEvent Payload)
          → find_by_id j w.events ≡ some d
          → is_due now d ≡ true
          → length (find_pending db limit now w.events) < limit
          → any (has_id j) (find_pending db limit now w.events) ≡ true
      unfolding find_pending
      found limit now w d f due room =
          db.find_complete (is_due now) (λ e. e.created_at) limit j d w.events f due room

      claimable_of_due :
          (now : ℕ) (d : OutboxEvent Payload) → is_due now d ≡ true → is_claimable d.status ≡ true
      unfolding is_due
      claimable_of_due now d h = ground arith

      -- A due event with a queue for its type, which that queue accepts, is completed and queued
      -- by the end of the round, unless the round's limit is used up by other events.
      pub due_event_is_sent :
          (d : OutboxEvent Payload) (limit now : ℕ) (w : World db mq)
          → Accepts
          → get_queue d.event_type ≡ some q
          → find_by_id j w.events ≡ some d
          → is_due now d ≡ true
          → length (find_pending db limit now w.events) < limit
          → IsDone (dispatch_pending db mq limit now clock w)
      unfolding dispatch_pending
      due_event_is_sent d limit now w ac known f due room =
          dispatch_all_sends ac d known (claimable_of_due now d due)
            (find_pending db limit now w.events) w f (find_pending-Matches db mq clock limit now w)
            (found limit now w d f due room)

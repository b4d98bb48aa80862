-- ===== src/Outbox/Dispatcher/Sent.antt =====
-- COMPLETED means sent: over a round every completed event has its job in the queue of its type,
-- and a due event that a queue accepts is completed by the end of the round.
use task_manager_api.Prelude.{
  ℕ, ◌≡◌, refl, ◌≢◌, inl, inr, true, some, List, [], ◌∷◌, arith, All, All-map, String, Option-cases,
  ap, ◌∙◌,
}
use task_manager_api.Platform.Collection.{Collection}
use task_manager_api.Platform.Queues.{Queues, QueueName, added}
use task_manager_api.Outbox.{
  OutboxEvent, completed, is_due, start, finish, give_up, postpone, find_pending,
}
use task_manager_api.Outbox.Retry.{failure}
use task_manager_api.Outbox.Dispatcher.{
  Job, World, get_queue, job_of, enqueue, dispatch_event, dispatch_all, dispatch_pending,
}
use task_manager_api.Outbox.Dispatcher.Delivery.{round_cases, dispatch_event-queues}

module _ {Payload : Type 0} (db : Collection (OutboxEvent Payload))
    (mq : Queues (Job Payload)) where
  open db use {Store, find_by_id}

  enqueue-has_job :
      (i : ℕ) (e : OutboxEvent Payload) (s s' : mq.Store)
      → enqueue db mq i e s ≡ added s'
      → (q : QueueName) × (get_queue e.event_type ≡ some q) × (mq.has_job q i s' ≡ true)
  unfolding enqueue
  enqueue-has_job i e s s' h = elim (Option-cases (get_queue e.event_type)) [
    | inl unknown ↦ absurd (ground (arith, unknown))
    | inr (q, known) ↦ (q, known, mq.added_has q i (job_of i e) s s' (ground arith))
  ]

  enqueue-keeps :
      (i j : ℕ) (e : OutboxEvent Payload) (q : QueueName) (s s' : mq.Store)
      → enqueue db mq i e s ≡ added s'
      → mq.has_job q j s ≡ true
      → mq.has_job q j s' ≡ true
  unfolding enqueue
  enqueue-keeps i j e q s s' h k = elim (Option-cases (get_queue e.event_type)) [
    | inl unknown ↦ absurd (ground (arith, unknown))
    | inr (p, known) ↦ mq.added_keeps p q i j (job_of i e) s s' (ground arith) k
  ]

  module _ (clock : ℕ → ℕ) where
    -- The job of a completed event stands in the queue of the event's type.
    pub record IsSent (j : ℕ) (w : World db mq) : Type 0 where
      pub event : OutboxEvent Payload
      pub stored : find_by_id j w.events ≡ some event
      pub sent :
          event.status ≡ completed
          → (q : QueueName) × (get_queue event.event_type ≡ some q)
            × (mq.has_job q j w.queues ≡ true)

    -- A snapshot of an event has the type of the stored event.
    abbrev pub Matches : World db mq → ℕ × OutboxEvent Payload → Type 0
    Matches w x =
        (d : OutboxEvent Payload) × (find_by_id x.0 w.events ≡ some d)
        × (d.event_type ≡ x.1.event_type)

    finish-type : (d : OutboxEvent Payload) (t : ℕ) → (finish t (start d)).event_type ≡ d.event_type
    unfolding finish start
    finish-type d t = refl

    failure-type :
        (d : OutboxEvent Payload) (m : String) (t : ℕ)
        → (failure (start d) m t).event_type ≡ d.event_type
    unfolding failure start give_up postpone
    failure-type d m t = ground arith

    failure_not_completed :
        (d : OutboxEvent Payload) (m : String) (t : ℕ) → (failure (start d) m t).status ≢ completed
    unfolding failure start give_up postpone
    failure_not_completed d m t h = ground arith

    pub dispatch_event-Matches :
        (x y : ℕ × OutboxEvent Payload) (w : World db mq)
        → Matches w y
        → Matches (dispatch_event db mq clock x w) y
    dispatch_event-Matches (i, e) (j, s) w (d, f, t) =
        round_cases db mq clock (λ w'. Matches w' (j, s)) i j e d w f (λ n g. (d, g, t))
          (λ n c g q. (d, g, t))
          (λ n c h. elim h [
            | inl (q, a, b, g) ↦ (_, g, finish-type d (clock j) ∙ t)
            | inr (m, a, b, g) ↦ (_, g, failure-type d m _ ∙ t)
          ])

    -- A job that is queued stays queued.
    pub dispatch_event-keeps :
        (j : ℕ) (q : QueueName) (x : ℕ × OutboxEvent Payload) (w : World db mq)
        → mq.has_job q j w.queues ≡ true
        → mq.has_job q j (dispatch_event db mq clock x w).queues ≡ true
    dispatch_event-keeps j q (i, e) w k = elim (dispatch_event-queues db mq clock i e w) [
      | inl same ↦ rw same k
      | inr sent ↦ enqueue-keeps i j e q w.queues _ sent k
    ]

    -- A job that is sent for a snapshot stands in the queue of the stored event's type.
    sent_job :
        (j : ℕ) (e d : OutboxEvent Payload) (w w' : World db mq) (s : mq.Store)
        → d.event_type ≡ e.event_type
        → enqueue db mq j e w.queues ≡ added s
        → w'.queues ≡ s
        → (q : QueueName) × (get_queue d.event_type ≡ some q) × (mq.has_job q j w'.queues ≡ true)
    sent_job j e d w w' s t a b =
        let (q, known, has) = enqueue-has_job j e w.queues s a in (q, rw t known, rw b has)

    pub matched_type :
        (j i : ℕ) (e d : OutboxEvent Payload) (w : World db mq)
        → Matches w (i, e)
        → i ≡ j
        → find_by_id j w.events ≡ some d
        → d.event_type ≡ e.event_type
    matched_type j i e d w (d', f', t) n f = ground (arith, ap (λ k. find_by_id k w.events) n)

    dispatch_event-IsSent :
        (j : ℕ) (x : ℕ × OutboxEvent Payload) (w : World db mq)
        → Matches w x
        → IsSent j w
        → IsSent j (dispatch_event db mq clock x w)
    dispatch_event-IsSent j (i, e) w mx r =
        round_cases db mq clock (IsSent j) i j e r.event w r.stored (λ n g. kept g)
          (λ n c g q. kept g)
          (λ n c h. elim h [
            | inl (s, a, b, g) ↦
                let t = matched_type j i e r.event w mx n r.stored in
                let (q, known, has) =
                  sent_job j e r.event w (dispatch_event db mq clock (i, e) w) s t a b in
                record {
                  event = finish (clock j) (start r.event);
                  stored = g;
                  sent = λ _. (q, rw (finish-type r.event (clock j)) known, has);
                }
            | inr (m, a, b, g) ↦ record {
              event = _;
              stored = g;
              sent = λ c. absurd (failure_not_completed r.event m _ c);
            }
          ])
      where
        kept :
            find_by_id j (dispatch_event db mq clock (i, e) w).events ≡ some r.event
            → IsSent j (dispatch_event db mq clock (i, e) w)
        kept g = record {
          event = r.event;
          stored = g;
          sent = λ c.
              let (q, known, has) = r.sent c in (q, known, dispatch_event-keeps j q (i, e) w has);
        }

    dispatch_all-IsSent :
        (j : ℕ) (xs : List (ℕ × OutboxEvent Payload)) (w : World db mq)
        → All (Matches w) xs
        → IsSent j w
        → IsSent j (dispatch_all db mq clock xs w)
    unfolding dispatch_all
    dispatch_all-IsSent j [] w ms r = r
    dispatch_all-IsSent j (x ∷ xs) w (m, ms) r =
        dispatch_all-IsSent j xs (dispatch_event db mq clock x w)
          (All-map (λ y. dispatch_event-Matches x y w) xs ms) (dispatch_event-IsSent j x w m r)

    pub find_pending-Matches :
        (limit now : ℕ) (w : World db mq) → All (Matches w) (find_pending db limit now w.events)
    unfolding find_pending
    find_pending-Matches limit now w =
        All-map (λ x h. (x.1, h.0, refl)) _
          (db.find_sound (is_due now) (λ e. e.created_at) limit w.events)

    -- If every completed event of the store has its job in the queue of its type, that holds after
    -- a round too: no event is marked COMPLETED whose job was not accepted.
    pub dispatch_pending-IsSent :
        (limit now j : ℕ) (w : World db mq)
        → IsSent j w
        → IsSent j (dispatch_pending db mq limit now clock w)
    unfolding dispatch_pending
    dispatch_pending-IsSent limit now j w r =
        dispatch_all-IsSent j _ w (find_pending-Matches limit now w) r

-- ===== src/Outbox/Dispatcher/Delivery.antt =====
-- What a whole round guarantees: nothing is left half done, and what is completed was sent.
use task_manager_api.Prelude.{
  ◌⊎◌, ℕ, ◌≡◌, ◌≢◌, inl, inr, true, false, some, List, [], ◌∷◌, String, arith, ◌==◌, Bool-cases,
  ◌∙◌,
}
use task_manager_api.Platform.Collection.{Collection}
use task_manager_api.Platform.Queues.{Queues, added}
use task_manager_api.Outbox.{
  OutboxEvent, processing, is_claimable, start, finish, give_up, postpone, find_pending,
}
use task_manager_api.Outbox.Retry.{failure}
use task_manager_api.Outbox.Dispatcher.{
  Job, World, enqueue, settle, dispatch_event, dispatch_all, dispatch_pending,
}
use task_manager_api.Outbox.Dispatcher.Round.{
  dispatch_event-other, Settled, dispatch_event-Settled, dispatch_event-skipped,
}

module _ {Payload : Type 0} (db : Collection (OutboxEvent Payload)) (mq : Queues (Job Payload))
    (clock : ℕ → ℕ) where
  open db use {Store, find_by_id}

  -- The document of an event between two rounds.
  pub record IsAtRest (j : ℕ) (w : World db mq) : Type 0 where
    pub event : OutboxEvent Payload
    pub stored : find_by_id j w.events ≡ some event
    pub at_rest : event.status ≢ processing

  failure-at_rest :
      (d : OutboxEvent Payload) (m : String) (t : ℕ) → (failure (start d) m t).status ≢ processing
  unfolding failure give_up postpone
  failure-at_rest d m t h = ground arith

  finish-at_rest : (d : OutboxEvent Payload) (t : ℕ) → (finish t d).status ≢ processing
  unfolding finish
  finish-at_rest d t h = ground arith

  Settled-IsAtRest :
      (i : ℕ) (e d : OutboxEvent Payload) (w w' : World db mq)
      → Settled db mq clock i e d w w'
      → IsAtRest i w'
  Settled-IsAtRest i e d w w' (inl (q, a, b, f)) = record {
    event = _;
    stored = f;
    at_rest = finish-at_rest (start d) (clock i);
  }
  Settled-IsAtRest i e d w w' (inr (m, a, b, f)) = record {
    event = _;
    stored = f;
    at_rest = failure-at_rest d m _;
  }

  -- A case split for one round of the loop, seen from the event j.
  pub round_cases {ℓ} :
      (P : World db mq → Type ℓ) (i j : ℕ) (e d : OutboxEvent Payload) (w : World db mq)
      → find_by_id j w.events ≡ some d
      → (i ≢ j
          → find_by_id j (dispatch_event db mq clock (i, e) w).events ≡ some d
          → P (dispatch_event db mq clock (i, e) w))
      → (i ≡ j
          → is_claimable d.status ≡ false
          → find_by_id j (dispatch_event db mq clock (i, e) w).events ≡ some d
          → (dispatch_event db mq clock (i, e) w).queues ≡ w.queues
          → P (dispatch_event db mq clock (i, e) w))
      → (i ≡ j
          → is_claimable d.status ≡ true
          → Settled db mq clock j e d w (dispatch_event db mq clock (i, e) w)
          → P (dispatch_event db mq clock (i, e) w))
      → P (dispatch_event db mq clock (i, e) w)
  round_cases P i j e d w f other skipped settled = elim (Bool-cases (i == j)) [
    | inr ne ↦
        let n : i ≢ j = ground arith in other n (dispatch_event-other db mq clock i j e w n ∙ f)
    | inl eq ↦
        let s : i ≡ j = ground arith in
        let g : find_by_id i w.events ≡ some d = rw s f in
        elim (Bool-cases (is_claimable d.status)) [
          | inl c ↦ settled s c (rw (← s) (dispatch_event-Settled db mq clock i e d w g c))
          | inr c ↦
              let (k, q) = dispatch_event-skipped db mq clock i e d w g c in
              skipped s c (rw (← s) k) q
        ]
  ]

  dispatch_event-IsAtRest :
      (j : ℕ) (x : ℕ × OutboxEvent Payload) (w : World db mq)
      → IsAtRest j w
      → IsAtRest j (dispatch_event db mq clock x w)
  dispatch_event-IsAtRest j (i, e) w r =
      round_cases (IsAtRest j) i j e r.event w r.stored
        (λ n f. record { event = r.event; stored = f; at_rest = r.at_rest })
        (λ s c f q. record { event = r.event; stored = f; at_rest = r.at_rest })
        (λ s c h. Settled-IsAtRest j e r.event w _ h)

  dispatch_all-IsAtRest :
      (j : ℕ) (xs : List (ℕ × OutboxEvent Payload)) (w : World db mq)
      → IsAtRest j w
      → IsAtRest j (dispatch_all db mq clock xs w)
  unfolding dispatch_all
  dispatch_all-IsAtRest j [] w r = r
  dispatch_all-IsAtRest j (x ∷ xs) w r =
      dispatch_all-IsAtRest j xs (dispatch_event db mq clock x w) (dispatch_event-IsAtRest j x w r)

  -- A round that runs to its end leaves no event in PROCESSING that was not so before it.
  pub dispatch_pending-IsAtRest :
      (limit now j : ℕ) (w : World db mq)
      → IsAtRest j w
      → IsAtRest j (dispatch_pending db mq limit now clock w)
  unfolding dispatch_pending
  dispatch_pending-IsAtRest limit now j w r =
      dispatch_all-IsAtRest j (find_pending db limit now w.events) w r

  -- The queues only gain jobs.
  pub dispatch_event-queues :
      (i : ℕ) (e : OutboxEvent Payload) (w : World db mq)
      → ((dispatch_event db mq clock (i, e) w).queues ≡ w.queues)
        ⊎ (enqueue db mq i e w.queues ≡ added (dispatch_event db mq clock (i, e) w).queues)
  unfolding dispatch_event settle
  dispatch_event-queues i e w = ground arith

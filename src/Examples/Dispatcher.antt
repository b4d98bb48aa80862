-- ===== src/Examples/Dispatcher.antt =====
-- A round of the dispatcher on a collection and queues in memory.
use task_manager_api.Prelude.{
  ℕ, ◌≡◌, refl, true, false, Bool, none, some, List, [], ◌∷◌, String, arith, ◌==◌, if◌then◌else◌,
  ◌&&◌,
}
use task_manager_api.Platform.Collection.{Collection}
use task_manager_api.Platform.Memory.{memory}
use task_manager_api.Platform.Queues.{
  Queues, QueueName, email, reminder, webhook, export, dead_letter, added,
}
use task_manager_api.Outbox.{
  OutboxEvent, pending, find_pending, is_due, mark_processing, mark_completed, start, finish,
}
use task_manager_api.Outbox.Dispatcher.{
  Job, World, get_queue, enqueue, settle, dispatch_event, dispatch_all, dispatch_pending,
}
use task_manager_api.Outbox.Dispatcher.Delivery.{IsAtRest, dispatch_pending-IsAtRest}
use task_manager_api.Outbox.Dispatcher.Sent.{IsSent, dispatch_pending-IsSent}
use task_manager_api.Outbox.Dispatcher.Liveness.{IsDone, due_event_is_sent}

abbrev index : QueueName → ℕ
index email = 0
index reminder = 1
index webhook = 2
index export = 3
index dead_letter = 4

-- The jobs that were added, each with its queue and its id.
abbrev Jobs : Type 0
Jobs = List (QueueName × ℕ)

abbrev holds : QueueName → ℕ → Jobs → Bool
holds q i [] = false
holds q i ((p, j) ∷ s) = if index p == index q && j == i then true else holds q i s

holds_new : (q : QueueName) (i : ℕ) (s : Jobs) → holds q i ((q, i) ∷ s) ≡ true
holds_new q i s = ground arith

holds_old :
    (q q' : QueueName) (i i' : ℕ) (s : Jobs)
    → holds q' i' s ≡ true
    → holds q' i' ((q, i) ∷ s) ≡ true
holds_old q q' i i' s h = ground arith

stays : (q : QueueName) (i : ℕ) (s s' : Jobs) → added ((q, i) ∷ s) ≡ added s' → holds q i s' ≡ true
stays q i s s' e = ground (arith, holds_new q i s)

keeps :
    (q q' : QueueName) (i i' : ℕ) (s s' : Jobs)
    → added ((q, i) ∷ s) ≡ added s'
    → holds q' i' s ≡ true
    → holds q' i' s' ≡ true
keeps q q' i i' s s' e h = ground (arith, holds_old q q' i i' s h)

abbrev queues : Queues (Job String)
queues = record {
  Store = Jobs;
  add = λ q i j s. added ((q, i) ∷ s);
  has_job = holds;
  added_has = λ q i j s s' e. stays q i s s' e;
  added_keeps = λ q q' i i' j s s' e h. keeps q q' i i' s s' e h;
}

abbrev Db : Collection (OutboxEvent String)
Db = memory (OutboxEvent String)

abbrev event : OutboxEvent String
event = record {
  event_type = "EMAIL_REQUESTED";
  aggregate_type = "USER";
  aggregate_id = 40;
  workspace_id = none;
  correlation_id = none;
  payload = "{}";
  status = pending;
  attempts = 0;
  available_at = none;
  processed_at = none;
  last_error = none;
  created_at = 100;
}

abbrev world : World Db queues
world = record { events = some event ∷ []; queues = [] }

clock : ℕ → ℕ
clock i = 700

-- The event is sent to the queue of its type and completed.
round :
    dispatch_pending Db queues 50 200 clock world
    ≡ record { events = some (finish 700 (start event)) ∷ []; queues = (email, 0) ∷ [] }
unfolding dispatch_pending dispatch_all dispatch_event settle enqueue get_queue find_pending is_due
    mark_processing mark_completed clock start finish
round = refl

due_event_is_sent_example :
    IsDone Db queues clock 0 email (dispatch_pending Db queues 50 200 clock world)
unfolding find_pending is_due get_queue
due_event_is_sent_example =
    due_event_is_sent Db queues clock 0 email event 50 200 world (λ job s. (((email, 0) ∷ s), refl))
      refl refl refl (omega arith)

dispatch_pending-IsSent_example :
    IsSent Db queues clock 0 (dispatch_pending Db queues 50 200 clock world)
dispatch_pending-IsSent_example =
    dispatch_pending-IsSent Db queues clock 50 200 0 world
      (record { event = event; stored = refl; sent = λ h. absurd (ground arith) })

dispatch_pending-IsAtRest_example :
    IsAtRest Db queues clock 0 (dispatch_pending Db queues 50 200 clock world)
dispatch_pending-IsAtRest_example =
    dispatch_pending-IsAtRest Db queues clock 50 200 0 world
      (record { event = event; stored = refl; at_rest = λ h. ground arith })

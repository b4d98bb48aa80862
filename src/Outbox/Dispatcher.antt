-- ===== src/Outbox/Dispatcher.antt =====
-- src/outbox/application/outbox-dispatcher.service.ts: one round of the dispatcher. `clock` gives
-- `Date.now()` while the event of an id is handled; the database itself does not fail.
pub mod Round
pub mod Delivery
pub mod Backoff
pub mod Sent
pub mod Liveness
use Prim.Native.String
use task_manager_api.Prelude.{
  ℕ, ◌+◌, ◌*◌, ◌^◌, Bool, Option, none, some, List, [], ◌∷◌, String, if◌then◌else◌, leb, str_eq,
}
use task_manager_api.Platform.Collection.{Collection}
use task_manager_api.Platform.Queues.{
  Queues, QueueName, email, reminder, webhook, export, Added, added, refused,
}
use task_manager_api.Outbox.{
  OutboxEvent, find_pending, mark_processing, mark_completed, mark_failed,
}

-- The data of a queued job.
pub record Job (Payload : Type 0) : Type 0 where
  pub outbox_event_id : ℕ
  pub event_type : String
  pub aggregate_type : String
  pub aggregate_id : ℕ
  pub workspace_id : Option ℕ
  pub correlation_id : Option String
  pub payload : Payload

unfoldable pub get_queue : String → Option QueueName
get_queue event_type =
    if str_eq event_type "TASK_CREATED"
    then some webhook
    else if str_eq event_type "TASK_COMPLETED"
    then some webhook
    else if str_eq event_type "TASK_ASSIGNED"
    then some webhook
    else if str_eq event_type "REMINDER_DUE"
    then some reminder
    else if str_eq event_type "EMAIL_REQUESTED"
    then some email
    else if str_eq event_type "EXPORT_REQUESTED"
    then some export
    else none

-- `Math.min(30_000, 1000 * 2 ** attempts)`
unfoldable pub retry_delay : ℕ → ℕ
retry_delay attempts = let delay = 1000 * 2 ^ attempts in if leb 30000 delay then 30000 else delay

module _ {Payload : Type 0} where
  unfoldable pub job_of : ℕ → OutboxEvent Payload → Job Payload
  job_of id event = record {
    outbox_event_id = id;
    event_type = event.event_type;
    aggregate_type = event.aggregate_type;
    aggregate_id = event.aggregate_id;
    workspace_id = event.workspace_id;
    correlation_id = event.correlation_id;
    payload = event.payload;
  }

  module _ (db : Collection (OutboxEvent Payload)) (mq : Queues (Job Payload)) where
    pub record World : Type 0 where
      pub events : db.Store
      pub queues : mq.Store

    -- The `try` block up to the job: no queue for the type throws too.
    unfoldable pub enqueue : ℕ → OutboxEvent Payload → mq.Store → Added mq.Store
    enqueue id event queues = elim (get_queue event.event_type) [
      | none ↦ refused (String.◌++◌ "No queue configured for event type: " event.event_type)
      | some queue ↦ mq.add queue id (job_of id event) queues
    ]

    -- The rest of the loop's body, for a claimed event: `markCompleted`, or the `catch` block.
    unfoldable pub settle : (ℕ → ℕ) → ℕ → OutboxEvent Payload → db.Store → mq.Store → World
    settle clock id event events queues = elim (enqueue id event queues) [
      | added queues' ↦ record {
        events = (mark_completed db id (clock id) events).1;
        queues = queues';
      }
      | refused message ↦
          let next = clock id + retry_delay event.attempts in
          record { events = (mark_failed db id message (some next) events).1; queues = queues }
    ]

    -- One round of the loop.
    unfoldable pub dispatch_event : (ℕ → ℕ) → ℕ × OutboxEvent Payload → World → World
    dispatch_event clock (id, event) w =
        let (claimed, events) = mark_processing db id w.events in
        elim claimed [
          | none ↦ record w { events = events }
          | some _ ↦ settle clock id event events w.queues
        ]

    unfoldable pub dispatch_all : (ℕ → ℕ) → List (ℕ × OutboxEvent Payload) → World → World
    dispatch_all clock [] w = w
    dispatch_all clock (x ∷ xs) w = dispatch_all clock xs (dispatch_event clock x w)

    unfoldable pub dispatch_pending : (limit now : ℕ) → (ℕ → ℕ) → World → World
    dispatch_pending limit now clock w = dispatch_all clock (find_pending db limit now w.events) w

-- ===== src/Outbox.antt =====
-- src/outbox: the transactional outbox. Here the document (schema/outbox-event.schema.ts), its
-- repository (infrastructure/repositories/outbox.repository.ts) and the service that writes events
-- (application/outbox.service.ts). Identifiers are object ids, as numbers; a date is its time in
-- milliseconds. `new Date()` and a fresh `_id` are arguments of the call that makes them.
pub mod Lifecycle
pub mod Claims
pub mod Retry
pub mod Dispatcher
use task_manager_api.Prelude.{
  ℕ, ◌+◌, ◌≤◌, ◌≡◌, Bool, true, false, ◌&&◌, Option, none, some, List, String, ltb, leb,
  if◌then◌else◌,
}
use task_manager_api.Platform.Collection.{Collection}

pub data OutboxEventStatus : Type 0 where
  pending processing completed failed : OutboxEventStatus

pub record OutboxEvent (Payload : Type 0) : Type 0 where
  pub event_type : String
  pub aggregate_type : String
  pub aggregate_id : ℕ
  pub workspace_id : Option ℕ
  pub correlation_id : Option String
  pub payload : Payload
  pub status : OutboxEventStatus
  pub attempts : ℕ
  pub available_at : Option ℕ
  pub processed_at : Option ℕ
  pub last_error : Option String
  pub created_at : ℕ

-- The argument of `OutboxRepository.create`.
pub record NewEvent (Payload : Type 0) : Type 0 where
  pub id : Option ℕ
  pub event_type : String
  pub aggregate_type : String
  pub aggregate_id : ℕ
  pub workspace_id : Option ℕ
  pub correlation_id : Option String
  pub payload : Payload
  pub status : Option OutboxEventStatus
  pub available_at : Option ℕ

abbrev pub or_default {ℓ} : {A : Type ℓ} → Option A → A → A
or_default none d = d
or_default (some a) d = a

-- `status: { $in: [PENDING, FAILED] }`
abbrev pub is_claimable : OutboxEventStatus → Bool
is_claimable pending = true
is_claimable failed = true
is_claimable _ = false

-- `status: PROCESSING`
abbrev pub is_processing : OutboxEventStatus → Bool
is_processing processing = true
is_processing _ = false

-- `$or: [{ availableAt: { $exists: false } }, { availableAt: { $lte: now } }]`
abbrev pub is_available : ℕ → Option ℕ → Bool
is_available now none = true
is_available now (some t) = leb t now

abbrev pub max_attempts : ℕ
max_attempts = 5

module _ {Payload : Type 0} where
  -- The document that `new this.outboxModel({ ...data, status })` makes, with the schema's defaults.
  unfoldable pub new_event : NewEvent Payload → ℕ → OutboxEvent Payload
  new_event data' now = record {
    event_type = data'.event_type;
    aggregate_type = data'.aggregate_type;
    aggregate_id = data'.aggregate_id;
    workspace_id = data'.workspace_id;
    correlation_id = data'.correlation_id;
    payload = data'.payload;
    status = or_default data'.status pending;
    attempts = 0;
    available_at = data'.available_at;
    processed_at = none;
    last_error = none;
    created_at = now;
  }

  -- The filter of `findPending`.
  unfoldable pub is_due : ℕ → OutboxEvent Payload → Bool
  is_due now e = is_claimable e.status && is_available now e.available_at

  -- The updates of the three status changes.
  unfoldable pub start : OutboxEvent Payload → OutboxEvent Payload
  start e = record e { status = processing; attempts = e.attempts + 1 }

  unfoldable pub finish : ℕ → OutboxEvent Payload → OutboxEvent Payload
  finish now e = record e { status = completed; processed_at = some now }

  -- `$set` of the error and the status, with `$unset: { availableAt: 1 }`.
  unfoldable pub give_up : String → OutboxEvent Payload → OutboxEvent Payload
  give_up error e = record e { status = failed; available_at = none; last_error = some error }

  -- `$set` of the error, the status and, where one is given, the next time.
  unfoldable pub postpone : String → Option ℕ → OutboxEvent Payload → OutboxEvent Payload
  postpone error next e = elim next [
    | none ↦ record e { status = failed; last_error = some error }
    | some t ↦ record e { status = failed; available_at = some t; last_error = some error }
  ]

  -- What `OutboxService.create` hands to the repository.
  unfoldable pub request :
      Option String → Option ℕ → String → String → ℕ → Option ℕ → Payload → NewEvent Payload
  request correlation_id id event_type aggregate_type aggregate_id workspace_id payload = record {
    id = id;
    event_type = event_type;
    aggregate_type = aggregate_type;
    aggregate_id = aggregate_id;
    workspace_id = workspace_id;
    correlation_id = correlation_id;
    payload = payload;
    status = none;
    available_at = none;
  }

  module _ (db : Collection (OutboxEvent Payload)) where
    open db use {Store, find_by_id, find, insert, find_one_and_update}

    -- `fresh` is the id that the driver makes where the caller gives none.
    unfoldable pub create :
        NewEvent Payload → (fresh now : ℕ) → Store → ℕ × OutboxEvent Payload × Store
    create data' fresh now s =
        let id = or_default data'.id fresh in
        let event = new_event data' now in (id, event, insert id event s)

    unfoldable pub find_pending : (limit now : ℕ) → Store → List (ℕ × OutboxEvent Payload)
    unfolding is_due
    find_pending limit now s = find (is_due now) (λ e. e.created_at) limit s

    unfoldable pub mark_processing : ℕ → Store → Option (OutboxEvent Payload) × Store
    mark_processing id s = find_one_and_update id (λ e. is_claimable e.status) start s

    unfoldable pub mark_completed : (id now : ℕ) → Store → Option (OutboxEvent Payload) × Store
    mark_completed id now s = find_one_and_update id (λ e. is_processing e.status) (finish now) s

    unfoldable pub mark_failed :
        ℕ → String → Option ℕ → Store → Option (OutboxEvent Payload) × Store
    mark_failed id error next s = elim (find_by_id id s) [
      | none ↦ (none, s)
      | some event ↦
          if leb max_attempts event.attempts
          then find_one_and_update id (λ e. is_processing e.status) (give_up error) s
          else find_one_and_update id (λ e. is_processing e.status) (postpone error next) s
    ]

-- ===== src/Mail.antt =====
-- src/mail: the record of an email delivery (schema/email-delivery.schema.ts) and its repository
-- (infrastructure/repositories/email-delivery.repository.ts) up to `update`.
pub mod Worker
pub mod Settled
use task_manager_api.Prelude.{ℕ, Option, some, String, ◌==◌}
use task_manager_api.Platform.Collection.{Collection}
use task_manager_api.Platform.Redis.{or_else}

pub data EmailDeliveryStatus : Type 0 where
  queued sending sent failed : EmailDeliveryStatus

pub record EmailDelivery : Type 0 where
  pub outbox_event_id : ℕ
  pub to : String
  pub email_type : String
  pub status : EmailDeliveryStatus
  pub attempts : Option ℕ
  pub provider_message_id : Option String
  pub last_error : Option String
  pub sent_at : Option ℕ
  pub failed_at : Option ℕ

-- The argument of `create`.
pub record CreateEmailDeliveryData : Type 0 where
  pub outbox_event_id : ℕ
  pub to : String
  pub email_type : String
  pub status : Option EmailDeliveryStatus
  pub attempts : Option ℕ
  pub provider_message_id : Option String
  pub last_error : Option String
  pub sent_at : Option ℕ
  pub failed_at : Option ℕ

abbrev pub new_delivery : CreateEmailDeliveryData → EmailDelivery
new_delivery data' = record {
  outbox_event_id = data'.outbox_event_id;
  to = data'.to;
  email_type = data'.email_type;
  status = or_else data'.status queued;
  attempts = some (or_else data'.attempts 0);
  provider_message_id = data'.provider_message_id;
  last_error = data'.last_error;
  sent_at = data'.sent_at;
  failed_at = data'.failed_at;
}

module _ (db : Collection EmailDelivery) where
  -- `fresh` is the id that the driver makes.
  unfoldable pub create_delivery : CreateEmailDeliveryData → (fresh : ℕ) → db.Store → db.Store
  create_delivery data' fresh s = db.insert fresh (new_delivery data') s

  unfoldable pub find_by_outbox_event_id : ℕ → db.Store → Option (ℕ × EmailDelivery)
  find_by_outbox_event_id event_id s = db.find_one (λ e. e.outbox_event_id == event_id) s

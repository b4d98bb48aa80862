-- ===== src/Examples/Mail.antt =====
-- An email job whose mailer never answers, with a collection in memory.
use task_manager_api.Prelude.{none, some, List, [], ◌∷◌}
use task_manager_api.Platform.Collection.{Collection}
use task_manager_api.Platform.Memory
use task_manager_api.Mail.{EmailDelivery, queued}
use task_manager_api.Mail.Worker.{EmailPayload, EmailJob, DeadLetter, Mailroom}

abbrev db : Collection EmailDelivery
db = Memory.memory EmailDelivery

abbrev delivery : EmailDelivery
delivery = record {
  outbox_event_id = 4;
  to = "ann@example.com";
  email_type = "PASSWORD_RESET";
  status = queued;
  attempts = some 0;
  provider_message_id = none;
  last_error = none;
  sent_at = none;
  failed_at = none;
}

abbrev payload : EmailPayload
payload = record {
  email_type = some "PASSWORD_RESET";
  to = some "ann@example.com";
  token = "token";
  expires_at = "2026-01-01";
  workspace_name = "undefined";
  task_title = "undefined";
  due_date = "undefined";
  priority = "undefined";
}

abbrev job : EmailJob
job = record {
  id = some "4";
  event_type = some "EMAIL_REQUESTED";
  payload = some payload;
  outbox_event_id = some 4;
  correlation_id = none;
  max_attempts = some 3;
}

abbrev room : Mailroom db {Dlq = List DeadLetter} (λ d dead. (none, d ∷ dead)) (λ t. 0)
room = record { deliveries = some delivery ∷ []; dead = [] }

-- ===== src/Mail/Settled.antt =====
-- The end of an email job of src/infrastructure/processors/email.processor.ts: sent, or failed and with
-- the dead letters.
use task_manager_api.Prelude.{ℕ, ◌+◌, ◌≡◌, ◌⊎◌, Bool, true, Option, some, String, ◌==◌}
use task_manager_api.Platform.Collection.{Collection}
use task_manager_api.Platform.Redis.{or_else}
use task_manager_api.Authorization.Guard.{non_empty}
use task_manager_api.Mail.{EmailDelivery, sent, failed}
use task_manager_api.Mail.Worker.{
  EmailPayload, EmailJob, Mail, DeadLetter, dead_letter, Mailroom, started, update,
}

module _ (db : Collection EmailDelivery) {Dlq : Type 0}
    (add_dead : DeadLetter → Dlq → Option String × Dlq) (date_of : String → ℕ) (event_id : ℕ) where
  abbrev Room : Type 0
  Room = Mailroom db add_dead date_of

  abbrev is_event : EmailDelivery → Bool
  is_event d = d.outbox_event_id == event_id

  -- The delivery of the event, alone, with its document.
  pub record Has (id : ℕ) (d : EmailDelivery) (s : Room) : Type 0 where
    pub stored : db.find_by_id id s.deliveries ≡ some d
    pub of_event : is_event d ≡ true
    pub alone :
        (j : ℕ) (e : EmailDelivery)
        → db.find_by_id j s.deliveries ≡ some e
        → is_event e ≡ true
        → j ≡ id

  -- How a job may end: sent with the dead letters as they were, or failed with one letter, that of the
  -- job, given once to the queue of dead letters, which takes it or throws.
  pub record IsSettled (job : EmailJob) (event_type : String) (p : EmailPayload) (id : ℕ)
      (dead : Dlq) (s : Room) : Type 0 where
    pub delivery : EmailDelivery
    pub stored : db.find_by_id id s.deliveries ≡ some delivery
    pub ended :
        ((delivery.status ≡ sent) × (s.dead ≡ dead))
        ⊎ ((delivery.status ≡ failed)
            × (error : String) × (delivery.last_error ≡ some error)
            × (s.dead
                ≡ (add_dead
                    (dead_letter job event_id event_type p error (or_else job.max_attempts 1))
                    dead).1))

  module _ (send : ℕ → Mail → Option String) (clock : ℕ → ℕ) (job : EmailJob) (event_type : String)
      (p : EmailPayload) (typed : non_empty job.event_type ≡ some event_type)
      (filled : job.payload ≡ some p) (known : job.outbox_event_id ≡ some event_id) where
    -- The rooms after the two ends of a try that is the last.
    at_start : (made id : ℕ) → Room → Room
    at_start made id s = update db add_dead date_of id (started (made + 1)) s

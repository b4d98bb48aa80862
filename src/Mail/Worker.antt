-- ===== src/Mail/Worker.antt =====
-- src/infrastructure/processors/email.processor.ts with `update` of the deliveries' repository and
-- src/infrastructure/queues/dead-letter.service.ts. An error that a job throws is its message. What the
-- mailer and the queue of dead letters do is a parameter, with the message of the error where they
-- throw; `date_of` is `new Date` of a text.
use task_manager_api.Prelude.{
  ℕ, zero, suc, ◌+◌, true, Option, none, some, ◌⊎◌, inl, inr, String, str_eq, leb, if◌then◌else◌,
}
use task_manager_api.Platform.Collection.{Collection}
use task_manager_api.Platform.Redis.{or_else}
use task_manager_api.Authorization.Guard.{non_empty}
use task_manager_api.Mail.{EmailDelivery, sending, sent, failed, find_by_outbox_event_id}

-- The payload, its fields as `String` gives them; the first two where they are texts.
pub record EmailPayload : Type 0 where
  pub email_type : Option String
  pub to : Option String
  pub token : String
  pub expires_at : String
  pub workspace_name : String
  pub task_title : String
  pub due_date : String
  pub priority : String

pub record EmailJob : Type 0 where
  pub id : Option String
  pub event_type : Option String
  pub payload : Option EmailPayload
  pub outbox_event_id : Option ℕ
  pub correlation_id : Option String
  pub max_attempts : Option ℕ

-- The calls of the mail service.
pub data Mail : Type 0 where
  verification password_reset : (to token : String) → (expires_at : ℕ) → Mail
  workspace_invitation : (to workspace_name token : String) → (expires_at : ℕ) → Mail
  reminder : (to task_title : String) → (due_date : ℕ) → (priority : String) → Mail

pub record DeadLetter : Type 0 where
  pub job_id : Option String
  pub outbox_event_id : ℕ
  pub event_type : String
  pub payload : EmailPayload
  pub error : String
  pub attempts : ℕ
  pub correlation_id : Option String

-- What `moveToDeadLetterQueue` is given.
abbrev pub dead_letter :
    EmailJob
    → (event_id : ℕ) → (event_type : String) → EmailPayload
    → (error : String) → (attempts : ℕ) → DeadLetter
dead_letter job event_id event_type p error attempts = record {
  job_id = job.id;
  outbox_event_id = event_id;
  event_type = event_type;
  payload = p;
  error = error;
  attempts = attempts;
  correlation_id = job.correlation_id;
}

-- The updates of a delivery. A field that is `undefined` in `$set` is left as it is.
unfoldable pub started : (attempts : ℕ) → EmailDelivery → EmailDelivery
started attempts d = record d { status = sending; attempts = some attempts }

unfoldable pub delivered : (now : ℕ) → EmailDelivery → EmailDelivery
delivered now d = record d { status = sent; sent_at = some now }

unfoldable pub given_up : (now : ℕ) → String → (attempts : ℕ) → EmailDelivery → EmailDelivery
given_up now error attempts d = record d {
  status = failed;
  failed_at = some now;
  last_error = some error;
  attempts = some attempts;
}

unfoldable pub put_off : String → (attempts : ℕ) → EmailDelivery → EmailDelivery
put_off error attempts d = record d { attempts = some attempts; last_error = some error }

-- The mail that a payload asks for, or the message of the error.
unfoldable pub mail_of : (date_of : String → ℕ) → EmailPayload → String ⊎ Mail
mail_of date_of p = elim p.email_type [
  | none ↦ inl "EMAIL_REQUESTED payload is invalid"
  | some email_type ↦ elim p.to [
    | none ↦ inl "EMAIL_REQUESTED payload is invalid"
    | some to' ↦
        if str_eq email_type "EMAIL_VERIFICATION"
        then inr (verification to' p.token (date_of p.expires_at))
        else if str_eq email_type "PASSWORD_RESET"
        then inr (password_reset to' p.token (date_of p.expires_at))
        else if str_eq email_type "WORKSPACE_INVITATION"
        then inr (workspace_invitation to' p.workspace_name p.token (date_of p.expires_at))
        else if str_eq email_type "TASK_REMINDER"
        then inr (reminder to' p.task_title (date_of p.due_date) p.priority)
        else inl "Unsupported email type"
  ]
]

module _ (db : Collection EmailDelivery) {Dlq : Type 0}
    (add_dead : DeadLetter → Dlq → Option String × Dlq) (date_of : String → ℕ) where
  pub record Mailroom : Type 0 where
    pub deliveries : db.Store
    pub dead : Dlq

  unfoldable pub update : ℕ → (EmailDelivery → EmailDelivery) → Mailroom → Mailroom
  update id change s = record s {
    deliveries = (db.find_one_and_update id (λ d. true) change s.deliveries).1;
  }

  -- One try: `send` answers with the message of the mailer's error, if any.
  unfoldable pub try_mail : (send : Mail → Option String) → String → EmailPayload → Option String
  unfolding mail_of
  try_mail send event_type p =
      if str_eq event_type "EMAIL_REQUESTED"
      then elim (mail_of date_of p) [ inl error ↦ some error | inr mail ↦ send mail ]
      else some "Unsupported email event type"

  -- What follows a failed try, with the error that leaves `process`: that of the try, or that of the
  -- queue of dead letters.
  unfoldable pub record_failure :
      EmailJob
      → (event_id : ℕ) → (event_type : String) → EmailPayload
      → (made now id : ℕ) → String
      → Mailroom
      → String × Mailroom
  unfolding update given_up put_off
  record_failure job event_id event_type p made now id error s =
      if leb (or_else job.max_attempts 1) (made + 1)
      then (let s' = update id (given_up now error (made + 1)) s in
          let (refused, dead') =
            add_dead (dead_letter job event_id event_type p error (made + 1)) s'.dead in
          (or_else refused error, record s' { dead = dead' }))
      else (error, update id (put_off error (made + 1)) s)

  -- From the delivery on.
  unfoldable pub attempt :
      (send : Mail → Option String)
      → EmailJob
      → (event_id : ℕ) → (event_type : String) → EmailPayload
      → (made now id : ℕ) → Mailroom
      → Option String × Mailroom
  unfolding update started delivered try_mail record_failure
  attempt send job event_id event_type p made now id s =
      let s1 = update id (started (made + 1)) s in
      elim (try_mail send event_type p) [
        | none ↦ (none, update id (delivered now) s1)
        | some error ↦
            let (thrown, s2) = record_failure job event_id event_type p made now id error s1 in
            (some thrown, s2)
      ]

  -- `process` of a job that was tried `made` times before; `none` is a job that is done.
  unfoldable pub process :
      (send : Mail → Option String)
      → EmailJob
      → (made now : ℕ) → Mailroom
      → Option String × Mailroom
  unfolding attempt find_by_outbox_event_id
  process send job made now s = elim (non_empty job.event_type) [
    | none ↦ (some "Email job is missing eventType", s)
    | some event_type ↦ elim job.payload [
      | none ↦ (some "Email job is missing payload", s)
      | some p ↦ elim job.outbox_event_id [
        | none ↦ (some "Email job is missing outboxEventId", s)
        | some event_id ↦ elim (find_by_outbox_event_id db event_id s.deliveries) [
          | none ↦ (some "Email delivery record not found for outbox event", s)
          | some (id, _) ↦ attempt send job event_id event_type p made now id s
        ]
      ]
    ]
  ]

  -- The worker tries a job again while it throws and has tries left; `send` and `clock` say what
  -- happens at each try.
  unfoldable pub work :
      (send : ℕ → Mail → Option String)
      → (clock : ℕ → ℕ) → EmailJob
      → (left made : ℕ) → Mailroom
      → Mailroom
  unfolding process
  work send clock job zero made s = s
  work send clock job (suc left) made s =
      let (outcome, s') = process (send made) job made (clock made) s in
      elim outcome [ none ↦ s' | some error ↦ work send clock job left (made + 1) s' ]

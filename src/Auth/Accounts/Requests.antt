-- ===== src/Auth/Accounts/Requests.antt =====
-- The email that a registration and a forgotten password ask for.
use task_manager_api.Prelude.{
  ℕ, ◌+◌, ◌≡◌, refl, sym, ◌∙◌, inl, inr, ap, true, none, some, String, arith, is_some, Option-cases,
  ◌==◌,
}
use task_manager_api.Platform.Collection.{Collection}
use task_manager_api.Platform.Queues
use task_manager_api.Users.Repository.{
  find_by_email, find_by_email_without_password, create_user, set_password_reset_token,
}
use task_manager_api.Users.{User}
use task_manager_api.Outbox.{OutboxEvent, new_event, request, is_due, create}
use task_manager_api.Outbox.Dispatcher.{get_queue}
use task_manager_api.Mail.{
  EmailDelivery, CreateEmailDeliveryData, queued, create_delivery, find_by_outbox_event_id,
  new_delivery,
}
use task_manager_api.Auth.{Env}
use task_manager_api.Auth.Accounts.{
  EmailRequest, Draw, token_lifetime, forgot_message, Services, request_email, register,
  forgot_password,
}

module _ (env : Env) (mail : Collection EmailDelivery)
    (outbox : Collection (OutboxEvent EmailRequest)) where
  -- An email with the token stands in the outbox for the dispatcher, on its way to the queue of
  -- emails, and its delivery is on record under the id of the event.
  pub record IsRequested (email_type to' : String) (d : Draw) (ms : mail.Store) (es : outbox.Store)
      : Type 0 where
    pub event : OutboxEvent EmailRequest
    pub stored : outbox.find_by_id d.event_id es ≡ some event
    pub due : (now : ℕ) → is_due now event ≡ true
    pub queue : get_queue event.event_type ≡ some Queues.email
    pub kind : event.payload.email_type ≡ email_type
    pub token : event.payload.token ≡ d.token
    pub to : event.payload.to ≡ to'
    pub recorded : is_some (find_by_outbox_event_id mail d.event_id ms) ≡ true

  -- The ids that the command draws are free.
  pub record IsFresh (d : Draw) (ms : mail.Store) (es : outbox.Store) : Type 0 where
    pub event_free : outbox.find_by_id d.event_id es ≡ none
    pub delivery_free : mail.find_by_id d.delivery_id ms ≡ none

  -- The event of a command.
  abbrev event_of : String → String → ℕ → Draw → OutboxEvent EmailRequest
  event_of email_type to' user_id d =
      new_event
        (request d.correlation_id (some d.event_id) "EMAIL_REQUESTED" "USER" user_id none (record {
          email_type = email_type;
          to = to';
          token = d.token;
          expires_at = d.now + token_lifetime;
        }))
        d.now

  delivery_recorded :
      (data' : CreateEmailDeliveryData) (fresh : ℕ) (s : mail.Store)
      → mail.find_by_id fresh s ≡ none
      → is_some
          (find_by_outbox_event_id mail data'.outbox_event_id (create_delivery mail data' fresh s))
        ≡ true
  unfolding create_delivery find_by_outbox_event_id
  delivery_recorded data' fresh s free =
      let p = λ (e : EmailDelivery). e.outbox_event_id == data'.outbox_event_id in
      let s' = mail.insert fresh (new_delivery data') s in
      elim (Option-cases (mail.find_one p s')) [
        | inl nobody ↦ absurd (
            ground (
              arith,
              mail.find_one_complete p s' fresh (new_delivery data') nobody
                  (ground (arith, mail.find-insert fresh fresh (new_delivery data') s free)),
            ))
        | inr (e, one) ↦ ap is_some one
      ]

  pub request_email-IsRequested :
      (email_type to' : String) (user_id : ℕ) (d : Draw) (s : Services env mail outbox)
      → IsFresh d s.deliveries s.events
      → let s' = request_email env mail outbox email_type to' user_id d s in
        IsRequested email_type to' d s'.deliveries s'.events
  unfolding request_email create new_event request is_due get_queue
  request_email-IsRequested email_type to' user_id d s fresh = record {
    event = event_of email_type to' user_id d;
    stored = ground (
      arith,
      outbox.find-insert d.event_id d.event_id (event_of email_type to' user_id d) s.events
          fresh.event_free,
    );
    due = λ now. refl;
    queue = refl;
    kind = refl;
    token = refl;
    to = refl;
    recorded =
        delivery_recorded
          (record {
            outbox_event_id = d.event_id;
            to = to';
            email_type = email_type;
            status = some queued;
            attempts = none;
            provider_message_id = none;
            last_error = none;
            sent_at = none;
            failed_at = none;
          })
          d.delivery_id s.deliveries fresh.delivery_free;
  }

  -- A forgotten password of a known user, with free ids drawn, asks for an email with the drawn
  -- token: its event is due in the outbox, goes to the queue of emails, and a delivery is on record
  -- under the event's id.
  pub forgot_password-IsRequested :
      (email : String) (d : Draw) (s : Services env mail outbox) (id : ℕ) (u : User)
      → find_by_email_without_password env.users env.cache env.list_cache env.to_lower email
          s.world.users
        ≡ some (id, u)
      → IsFresh d s.deliveries s.events
      → let s' = (forgot_password env mail outbox email d s).1 in
        IsRequested "PASSWORD_RESET" email d s'.deliveries s'.events
  unfolding forgot_password
  forgot_password-IsRequested email d s id u known fresh =
      let users =
        set_password_reset_token env.users env.cache env.list_cache id (env.sha256 d.token)
          (d.now + token_lifetime) s.world.users in
      rw (known, forgot_password)
        (request_email-IsRequested "PASSWORD_RESET" email id d
          (record s { world = record s.world { users = users } }) fresh)

  -- A registration with a new address, with free ids drawn, asks for an email with the drawn token:
  -- its event is due in the outbox, goes to the queue of emails, and a delivery is on record under
  -- the event's id.
  pub register-IsRequested :
      (email password : String) (d : Draw) (s : Services env mail outbox)
      → find_by_email env.users env.cache env.list_cache email s.world.users ≡ none
      → IsFresh d s.deliveries s.events
      → let s' = (register env mail outbox email password d s).1 in
        IsRequested "EMAIL_VERIFICATION" email d s'.deliveries s'.events
  unfolding register
  register-IsRequested email password d s new fresh =
      let (user, users) =
        create_user env.users env.cache env.list_cache d.user_id email
          (env.bcrypt_hash d.salt password) (env.sha256 d.token) (d.now + token_lifetime)
          s.world.users in
      rw (new, register)
        (request_email-IsRequested "EMAIL_VERIFICATION" email user.0 d
          (record s { world = record s.world { users = users } }) fresh)

  -- The answer to a forgotten password is the same for a known and an unknown address; an unknown
  -- one changes nothing.
  pub forgot_password_hides :
      (email other : String) (d d' : Draw) (s s' : Services env mail outbox)
      → find_by_email_without_password env.users env.cache env.list_cache env.to_lower other
          s'.world.users
        ≡ none
      → ((forgot_password env mail outbox email d s).0
          ≡ (forgot_password env mail outbox other d' s').0)
        × ((forgot_password env mail outbox other d' s').1 ≡ s')
  unfolding forgot_password
  forgot_password_hides email other d d' s s' unknown =
      let same = answer email d s in
      (same ∙ sym (answer other d' s'), rw (unknown, forgot_password))
    where
      answer :
          (text : String) (e : Draw) (t : Services env mail outbox)
          → (forgot_password env mail outbox text e t).0 ≡ forgot_message
      answer text e t =
          elim (Option-cases (
            find_by_email_without_password env.users env.cache env.list_cache env.to_lower text
              t.world.users)) [
                | inl nobody ↦ rw (nobody, forgot_password) refl
                | inr (found, here) ↦ rw (here, forgot_password) refl
              ]

-- ===== src/Auth/Accounts.antt =====
-- src/auth/application/command: register-user/register-user.handler.ts and
-- forgot-password/forgot-password.handler.ts. Both store a token's hash with the user, write the
-- record of an email, and the event that asks for it.
pub mod Requests
pub mod Recovery
pub mod Registration
pub mod Activation
use task_manager_api.Prelude.{ℕ, ◌+◌, ◌*◌, Option, none, some, String, Result, ok, err, conflict}
use task_manager_api.Platform.Collection.{Collection}
use task_manager_api.Users.Repository.{
  Found, find_by_email, find_by_email_without_password, create_user, set_password_reset_token,
}
use task_manager_api.Outbox.{OutboxEvent, request}
use task_manager_api.Outbox
use task_manager_api.Mail.{EmailDelivery, queued, create_delivery}
use task_manager_api.Auth.{Env, World, audit}

-- The payload of an `EMAIL_REQUESTED` event.
pub record EmailRequest : Type 0 where
  pub email_type : String
  pub to : String
  pub token : String
  pub expires_at : ℕ

-- What a command draws: the time, the random token (as hexadecimal text), the salt of the password,
-- the fresh ids, and the id of the HTTP request.
pub record Draw : Type 0 where
  pub now : ℕ
  pub token : String
  pub salt : ℕ
  pub user_id : ℕ
  pub event_id : ℕ
  pub delivery_id : ℕ
  pub correlation_id : Option String

-- An hour, in milliseconds.
abbrev pub token_lifetime : ℕ
token_lifetime = 60 * 60 * 1000

abbrev pub forgot_message : String
forgot_message = "If an account with that email exists, a password reset email has been sent."

module _ (env : Env) (mail : Collection EmailDelivery)
    (outbox : Collection (OutboxEvent EmailRequest)) where
  pub record Services : Type 0 where
    pub world : World env
    pub deliveries : mail.Store
    pub events : outbox.Store

  -- The delivery's record, then the event under the same id.
  unfoldable pub request_email : String → String → ℕ → Draw → Services → Services
  unfolding Outbox.create
  request_email email_type to' user_id d s =
      let deliveries =
        create_delivery mail
          (record {
            outbox_event_id = d.event_id;
            to = to';
            email_type = email_type;
            status = some queued;
            attempts = none;
            provider_message_id = none;
            last_error = none;
            sent_at = none;
            failed_at = none;
          })
          d.delivery_id s.deliveries in
      let payload : EmailRequest = record {
        email_type = email_type;
        to = to';
        token = d.token;
        expires_at = d.now + token_lifetime;
      } in
      let (id, event, events) =
        Outbox.create outbox
          (request d.correlation_id (some d.event_id) "EMAIL_REQUESTED" "USER" user_id none payload)
          d.event_id d.now s.events in
      record s { deliveries = deliveries; events = events }

  unfoldable pub register : String → String → Draw → Services → Result Found × Services
  unfolding request_email audit
  register email password d s =
      elim (find_by_email env.users env.cache env.list_cache email s.world.users) [
        | some existing ↦ (err conflict, s)
        | none ↦
            let (user, users) =
              create_user env.users env.cache env.list_cache d.user_id email
                (env.bcrypt_hash d.salt password) (env.sha256 d.token) (d.now + token_lifetime)
                s.world.users in
            let s' =
              request_email "EMAIL_VERIFICATION" email user.0 d
                (record s { world = record s.world { users = users } }) in
            (
              ok user,
              record s' {
                world = audit env (some user.0) "USER_REGISTERED" "USER" none none s'.world;
              },
            )
      ]

  unfoldable pub forgot_password : String → Draw → Services → String × Services
  unfolding request_email audit
  forgot_password email d s =
      elim (find_by_email_without_password env.users env.cache env.list_cache env.to_lower email
        s.world.users) [
          | none ↦ (forgot_message, s)
          | some (id, u) ↦
              let users =
                set_password_reset_token env.users env.cache env.list_cache id (env.sha256 d.token)
                  (d.now + token_lifetime) s.world.users in
              let s' =
                request_email "PASSWORD_RESET" email id d
                  (record s { world = record s.world { users = users } }) in
              (
                forgot_message,
                record s' {
                  world = audit env (some id) "PASSWORD_RESET_REQUESTED" "AUTH" none none s'.world;
                },
              )
        ]

-- ===== src/Examples/Accounts.antt =====
-- Registration, forgotten passwords and the rate limit in a world in memory.
use task_manager_api.Prelude.{ℕ, zero, suc, ◌≡◌, refl, true, false, none, some, [], arith, ok}
use task_manager_api.Platform.Collection.{Collection}
use task_manager_api.Platform.Memory
use task_manager_api.Platform.RedisMemory
use task_manager_api.Users.{User, selected}
use task_manager_api.Users.Repository.{find_by_email, find_by_email_without_password}
use task_manager_api.Outbox.{OutboxEvent}
use task_manager_api.Mail.{EmailDelivery}
use task_manager_api.Auth.BruteForce.{is_blocked}
use task_manager_api.Auth.Login.{Tokens, login}
use task_manager_api.Auth.Sessions.{doc}
use task_manager_api.Auth.Password.{reset_password, confirm_email}
use task_manager_api.Auth.Accounts.{EmailRequest, Draw, Services, register, forgot_password}
use task_manager_api.Auth.Accounts.Requests.{
  IsRequested, IsFresh, forgot_password-IsRequested, register-IsRequested,
}
use task_manager_api.Auth.Accounts.Recovery.{Forgets, forgot-reset-login}
use task_manager_api.Auth.Accounts.Registration.{Registers}
use task_manager_api.Auth.Accounts.Activation.{register-confirm-login}
use task_manager_api.Auth.RateLimit.{check_limit, request_times, reset, allowed_after}
use task_manager_api.Examples.Auth.{env, ann, world, only_ann, at_login}

abbrev mail : Collection EmailDelivery
mail = Memory.memory EmailDelivery

abbrev outbox : Collection (OutboxEvent EmailRequest)
outbox = Memory.memory (OutboxEvent EmailRequest)

abbrev services : Services env mail outbox
services = record { world = world; deliveries = []; events = [] }

abbrev drawn : Draw
drawn = record {
  now = 10;
  token = "fresh";
  salt = 0;
  user_id = 1;
  event_id = 0;
  delivery_id = 0;
  correlation_id = none;
}

fresh : IsFresh env mail outbox drawn services.deliveries services.events
fresh = record { event_free = refl; delivery_free = refl }

forgets : Forgets env mail outbox "ann" drawn services 0 ann
unfolding find_by_email_without_password
forgets = record {
  view = selected ann;
  known = refl;
  stored = refl;
  given = refl;
  new_token = λ j v stored holds. only_ann j v stored;
}

forgot-reset-login_example :
    ((reset_password env
        (some "fresh")
        "new"
        500
        3
        (forgot_password env mail outbox "ann" drawn services).1.world).0
      ≡ ok "Password reset successfully")
    × (t : Tokens) × ((login env "ann" "new" none at_login
          (reset_password env
            (some "fresh")
            "new"
            500
            3
            (forgot_password env mail outbox "ann" drawn services).1.world).1).0
        ≡ ok t)
unfolding is_blocked
forgot-reset-login_example =
    forgot-reset-login env mail outbox "ann" drawn services 0 ann forgets "new" 500 3 (omega arith)
      none at_login (λ j v stored same. only_ann j v stored) refl refl

forgot_password-IsRequested_example :
    IsRequested env mail outbox "PASSWORD_RESET" "ann" drawn
      (forgot_password env mail outbox "ann" drawn services).1.deliveries
      (forgot_password env mail outbox "ann" drawn services).1.events
unfolding find_by_email_without_password
forgot_password-IsRequested_example =
    forgot_password-IsRequested env mail outbox "ann" drawn services 0 (selected ann) refl fresh

no_token :
    (j : ℕ) (v : User) → doc env j services.world ≡ some v → v.email_verification_token_hash ≡ none
no_token zero v stored = ground arith
no_token (suc j) v stored = absurd (ground arith)

registers : Registers env mail outbox "bob" drawn services
unfolding find_by_email
registers = record {
  unknown = refl;
  free = refl;
  given = refl;
  new_token = λ j v stored. ground (arith, no_token j v stored);
}

register-IsRequested_example :
    IsRequested env mail outbox "EMAIL_VERIFICATION" "bob" drawn
      (register env mail outbox "bob" "pw" drawn services).1.deliveries
      (register env mail outbox "bob" "pw" drawn services).1.events
register-IsRequested_example =
    register-IsRequested env mail outbox "bob" "pw" drawn services registers.unknown fresh

register-confirm-login_example :
    ((confirm_email env
        (some "fresh")
        500
        (register env mail outbox "bob" "pw" drawn services).1.world).0
      ≡ ok "Email verified successfully")
    × (t : Tokens) × ((login env "bob" "pw" none at_login
          (confirm_email env
            (some "fresh")
            500
            (register env mail outbox "bob" "pw" drawn services).1.world).1).0
        ≡ ok t)
unfolding is_blocked
register-confirm-login_example =
    register-confirm-login env mail outbox "bob" "pw" drawn services registers 500 (omega arith)
      none at_login refl

allowed_after_example :
    (check_limit RedisMemory.counters false "ann" (
      request_times RedisMemory.counters false 2 "ann"
        (reset RedisMemory.counters false "ann" []))).0
    ≡ true
allowed_after_example = allowed_after RedisMemory.counters false refl 2 "ann" []

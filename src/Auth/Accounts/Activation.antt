-- ===== src/Auth/Accounts/Activation.antt =====
-- The address of a new user, from the registration through its verification to the first login.
use task_manager_api.Prelude.{
  ℕ, ◌+◌, ◌<◌, ◌≡◌, refl, ◌∙◌, inl, inr, ap, Bool, true, false, Option, some, String, arith,
  if◌then◌else◌, ◌==◌, Bool-cases, ok, eq_iff,
}
use task_manager_api.Platform.Collection.{Collection}
use task_manager_api.Platform.Unique.{find_one_alone}
use task_manager_api.Users.{User, selected, awaits_verification, with_password, new_user, verified}
use task_manager_api.Users.Repository.{verify_email, invalidate}
use task_manager_api.Outbox.{OutboxEvent}
use task_manager_api.Mail.{EmailDelivery}
use task_manager_api.Auth.{Env, World, audit}
use task_manager_api.Auth.BruteForce.{is_blocked}
use task_manager_api.Auth.Login
use task_manager_api.Auth.Login.{Tokens, login, compare_stored}
use task_manager_api.Auth.Login.Conditions.{MayLogIn, login_iff}
use task_manager_api.Auth.Sessions.{doc}
use task_manager_api.Auth.Password.{confirm_email}
use task_manager_api.Auth.Accounts.{EmailRequest, Draw, token_lifetime, Services}
use task_manager_api.Auth.Accounts.Registration.{
  Registers, registered, user, doc-register, attempts-register, find_registered,
}

module _ (env : Env) (mail : Collection EmailDelivery)
    (outbox : Collection (OutboxEvent EmailRequest)) (email password : String) (d : Draw)
    (s : Services env mail outbox) (r : Registers env mail outbox email d s) (now : ℕ)
    (soon : now < d.now + token_lifetime) where
  abbrev before : World env
  before = registered env mail outbox email password d s r

  abbrev new : User
  new = user env mail outbox email password d s r

  abbrev filter : User → Bool
  filter = awaits_verification (env.sha256 d.token) now

  awaiting : filter new ≡ true
  unfolding awaits_verification new_user
  awaiting = ground (arith, eq_iff (env.sha256 d.token) (env.sha256 d.token))

  find_awaiting : env.users.find_one filter before.users.docs ≡ some (d.user_id, new)
  find_awaiting =
      find_one_alone env.users filter before.users.docs d.user_id new
        (ground (arith, doc-register env mail outbox email password d s r d.user_id)) awaiting alone
    where
      alone : (j : ℕ) (v : User) → doc env j before ≡ some v → filter v ≡ true → j ≡ d.user_id
      alone j v here holds = elim (Bool-cases (d.user_id == j)) [
        | inl same ↦ ground arith
        | inr other ↦
            let old =
              r.new_token j v
                (ground (arith, doc-register env mail outbox email password d s r j)) in
            unfold awaits_verification in ground arith
      ]

  abbrev confirmed : World env
  confirmed = (confirm_email env (some d.token) now before).1

  updated :
      (env.users.find_one_and_update d.user_id filter verified before.users.docs).0
      ≡ some (verified new)
  updated =
      env.users.update_returns d.user_id filter verified before.users.docs
      ∙ ground (arith, awaiting, doc-register env mail outbox email password d s r d.user_id)

  verify_email_answer :
      (verify_email env.users env.cache env.list_cache (env.sha256 d.token) now before.users).0
      ≡ some (d.user_id, selected (verified new))
  unfolding verify_email
  verify_email_answer = rw (find_awaiting, verify_email) (rw updated refl)

  docs-verify_email :
      (verify_email env.users env.cache env.list_cache (env.sha256 d.token) now before.users).1.docs
      ≡ (env.users.find_one_and_update d.user_id filter verified before.users.docs).1
  unfolding verify_email invalidate
  docs-verify_email = rw (find_awaiting, verify_email) refl

  confirm_email_lem :
      ((confirm_email env (some d.token) now before).0 ≡ ok "Email verified successfully")
      × ((confirm_email env (some d.token) now before).1.users.docs
          ≡ (env.users.find_one_and_update d.user_id filter verified before.users.docs).1)
      × ((confirm_email env (some d.token) now before).1.attempts ≡ before.attempts)
  unfolding confirm_email audit
  confirm_email_lem =
      rw (r.given, confirm_email)
        (rw (verify_email_answer, confirm_email) (refl, docs-verify_email, refl))

  doc-confirm_email :
      (j : ℕ)
      → doc env j confirmed ≡ (if d.user_id == j then some (verified new) else doc env j s.world)
  doc-confirm_email j =
      let moved = ap (λ docs. env.users.find_by_id j docs) confirm_email_lem.1 in
      let update = env.users.find-update d.user_id j filter verified before.users.docs in
      ground (arith, moved, update, awaiting, doc-register env mail outbox email password d s r j)

  -- A user who registers a new address, with a free id and a token that no user holds, and verifies
  -- the address with that token within the hour, then logs in with the password of the
  -- registration, where the address is not blocked.
  pub register-confirm-login :
      (ip : Option String) (at_login : Login.Draw)
      → is_blocked env.counters env.to_lower env.trim email s.world.attempts ≡ false
      → ((confirm_email env (some d.token) now before).0 ≡ ok "Email verified successfully")
        × (t : Tokens) × ((login env email password ip at_login confirmed).0 ≡ ok t)
  unfolding verified new_user
  register-confirm-login ip at_login unblocked =
      let attempts = confirm_email_lem.2 ∙ attempts-register env mail outbox email password d s r in
      let may : MayLogIn env email password ip at_login confirmed d.user_id
          (with_password (verified new)) =
        record {
          not_blocked =
              ap (is_blocked env.counters env.to_lower env.trim email) attempts ∙ unblocked;
          found =
              find_registered env mail outbox email password d s r confirmed (verified new)
                (ground (arith, doc-confirm_email d.user_id)) refl
                (λ j v here other. ground (arith, doc-confirm_email j));
          matches = env.compare-hash d.salt password;
          verified = refl;
        } in
      let (t, accepted) =
        (login_iff env email password ip at_login confirmed).1
          (d.user_id, with_password (verified new), may) in
      (confirm_email_lem.0, t, accepted)

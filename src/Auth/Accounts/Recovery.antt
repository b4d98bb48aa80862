-- ===== src/Auth/Accounts/Recovery.antt =====
-- A forgotten password, from the request to the next login.
use task_manager_api.Prelude.{
  ℕ, ◌+◌, ◌<◌, ◌≡◌, refl, ◌∙◌, inl, inr, ap, true, false, Option, some, String, arith,
  if◌then◌else◌, ◌==◌, Bool-cases, ok, str_eq, eq_iff,
}
use task_manager_api.Platform.Collection.{Collection}
use task_manager_api.Platform.Unique.{find_one_alone}
use task_manager_api.Users.{User, equals, awaits_reset, with_password, with_reset_token}
use task_manager_api.Users.Repository.{
  find_by_email, find_by_email_without_password, update_by_id, set_password_reset_token,
}
use task_manager_api.Outbox.{OutboxEvent}
use task_manager_api.Mail.{EmailDelivery}
use task_manager_api.Auth.{Env, World, audit}
use task_manager_api.Auth.BruteForce.{is_blocked}
use task_manager_api.Auth.Login
use task_manager_api.Auth.Login.{Tokens, login}
use task_manager_api.Auth.Login.Conditions.{MayLogIn, login_iff}
use task_manager_api.Auth.Sessions.{doc}
use task_manager_api.Auth.Password.{is_missing, change_password, reset_password}
use task_manager_api.Auth.Password.Reset.{
  Awaits, renewed, find-update_by_id, doc-change_password, reset_lem,
}
use task_manager_api.Auth.Accounts.{
  EmailRequest, Draw, token_lifetime, Services, request_email, forgot_password,
}

module _ (env : Env) (mail : Collection EmailDelivery)
    (outbox : Collection (OutboxEvent EmailRequest)) where
  -- A user found by the address, and a drawn token that no other user holds.
  pub record Forgets (email : String) (d : Draw) (s : Services env mail outbox) (id : ℕ) (u : User)
      : Type 0 where
    pub view : User
    pub known :
        find_by_email_without_password env.users env.cache env.list_cache env.to_lower email
          s.world.users
        ≡ some (id, view)
    pub stored : doc env id s.world ≡ some u
    pub given : is_missing (some d.token) ≡ false
    pub new_token :
        (j : ℕ) (v : User)
        → doc env j s.world ≡ some v
        → equals v.password_reset_token_hash (env.sha256 d.token) ≡ true
        → j ≡ id

  module _ (email : String) (d : Draw) (s : Services env mail outbox) (id : ℕ) (u : User)
      (f : Forgets email d s id u) where
    abbrev awaiting : User
    awaiting = with_reset_token (env.sha256 d.token) (d.now + token_lifetime) u

    abbrev after : World env
    after = (forgot_password env mail outbox email d s).1.world

    users-forgot_password :
        (forgot_password env mail outbox email d s).1.world.users
        ≡ (update_by_id env.users env.cache env.list_cache id
            (with_reset_token (env.sha256 d.token) (d.now + token_lifetime))
            s.world.users).1
    unfolding forgot_password request_email audit set_password_reset_token
    users-forgot_password = rw (f.known, forgot_password) refl

    attempts-forgot_password :
        (forgot_password env mail outbox email d s).1.world.attempts ≡ s.world.attempts
    unfolding forgot_password request_email audit
    attempts-forgot_password = rw (f.known, forgot_password) refl

    doc-forgot_password :
        (j : ℕ) → doc env j after ≡ (if id == j then some awaiting else doc env j s.world)
    doc-forgot_password j =
        let moved = ap (λ us. env.users.find_by_id j us.docs) users-forgot_password in
        let update =
          find-update_by_id env id j
            (with_reset_token (env.sha256 d.token) (d.now + token_lifetime)) s.world.users in
        elim (Bool-cases (id == j)) [
          | inl same ↦
              let i : id ≡ j = ground arith in
              ground (arith, moved, update, f.stored, ap (λ k. doc env k s.world) i)
          | inr other ↦ ground (arith, moved, update)
        ]

    -- The user's reset token is stored, until an hour later.
    forgot_password-Awaits :
        (later : ℕ)
        → later < d.now + token_lifetime
        → Awaits env (some d.token) later after id awaiting
    forgot_password-Awaits later soon = record {
      stored = ground (arith, doc-forgot_password id);
      given = f.given;
      waits =
          unfold awaits_reset with_reset_token in
          ground (arith, eq_iff (env.sha256 d.token) (env.sha256 d.token));
      alone = λ j v here holds. only j v here holds;
    }
      where
        only :
            (j : ℕ) (v : User)
            → doc env j after ≡ some v
            → equals v.password_reset_token_hash (env.sha256 d.token) ≡ true
            → j ≡ id
        only j v here holds = elim (Bool-cases (id == j)) [
          | inl same ↦ ground arith
          | inr other ↦ f.new_token j v (ground (arith, doc-forgot_password j)) holds
        ]

    module _ (new_password : String) (later salt : ℕ) (soon : later < d.now + token_lifetime) where
      abbrev reset : World env
      reset = (reset_password env (some d.token) new_password later salt after).1

      -- The reset with the token of the email.
      forgot-reset :
          reset_password env (some d.token) new_password later salt after
          ≡ (ok "Password reset successfully", change_password env id salt new_password after)
      forgot-reset =
          reset_lem env (some d.token) later after id awaiting (forgot_password-Awaits later soon)
            new_password salt

      doc-reset :
          (j : ℕ)
          → doc env j reset
            ≡ (if id == j then some (renewed env salt new_password awaiting) else doc env j s.world)
      doc-reset j =
          let moved = ap (λ r. doc env j r.1) forgot-reset in
          let changed = doc-change_password env id j salt new_password after in
          ground (arith, moved, changed, doc-forgot_password j)

      attempts-reset : reset.attempts ≡ s.world.attempts
      unfolding change_password audit
      attempts-reset = ap (λ r. r.1.attempts) forgot-reset ∙ attempts-forgot_password

      find-reset :
          ((j : ℕ) (v : User) → doc env j s.world ≡ some v → v.email ≡ u.email → j ≡ id)
          → find_by_email env.users env.cache env.list_cache u.email reset.users
            ≡ some (id, with_password (renewed env salt new_password awaiting))
      unfolding find_by_email with_reset_token
      find-reset own =
          let one =
            find_one_alone env.users (λ v. str_eq v.email u.email) reset.users.docs id
              (renewed env salt new_password awaiting) (ground (arith, doc-reset id))
              (ground (arith, eq_iff u.email u.email)) alone in
          rw one refl
        where
          alone :
              (j : ℕ) (v : User) → doc env j reset ≡ some v → str_eq v.email u.email ≡ true → j ≡ id
          alone j v here holds = elim (Bool-cases (id == j)) [
            | inl same ↦ ground arith
            | inr other ↦ own j v (ground (arith, doc-reset j)) ((eq_iff v.email u.email).0 holds)
          ]

      -- A user who asks for a password reset, with a token that no other user holds, and uses that
      -- token within the hour, then logs in with the new password, where the address is verified,
      -- not blocked and no other user's.
      pub forgot-reset-login :
          (ip : Option String) (at_login : Login.Draw)
          → ((j : ℕ) (v : User) → doc env j s.world ≡ some v → v.email ≡ u.email → j ≡ id)
          → u.email_verified ≡ true
          → is_blocked env.counters env.to_lower env.trim u.email s.world.attempts ≡ false
          → ((reset_password env (some d.token) new_password later salt after).0
              ≡ ok "Password reset successfully")
            × (t : Tokens) × ((login env u.email new_password ip at_login reset).0 ≡ ok t)
      unfolding with_reset_token
      forgot-reset-login ip at_login own verified unblocked =
          let may : MayLogIn env u.email new_password ip at_login reset id
              (with_password (renewed env salt new_password awaiting)) =
            record {
              not_blocked =
                  ap (is_blocked env.counters env.to_lower env.trim u.email) attempts-reset
                  ∙ unblocked;
              found = find-reset own;
              matches = env.compare-hash salt new_password;
              verified = verified;
            } in
          let (t, accepted) =
            (login_iff env u.email new_password ip at_login reset).1
              (id, with_password (renewed env salt new_password awaiting), may) in
          (ap (λ r. r.0) forgot-reset, t, accepted)

-- ===== src/Auth/Accounts/Registration.antt =====
-- A registration, from the request to the first login.
use task_manager_api.Prelude.{
  ℕ, ◌+◌, ◌≡◌, refl, ◌∙◌, inl, inr, ap, true, false, Option, none, some, String, arith,
  if◌then◌else◌, ◌==◌, Bool-cases, Option-cases, err, forbidden, str_eq, eq_iff,
}
use task_manager_api.Platform.Collection.{Collection}
use task_manager_api.Platform.Unique.{find_one_alone}
use task_manager_api.Users.{User, equals, with_password, new_user}
use task_manager_api.Users.Repository.{find_by_email, create_user}
use task_manager_api.Outbox.{OutboxEvent}
use task_manager_api.Mail.{EmailDelivery}
use task_manager_api.Auth.{Env, World, audit}
use task_manager_api.Auth.BruteForce.{is_blocked}
use task_manager_api.Auth.Login
use task_manager_api.Auth.Login.{Tokens, login, login_as, compare_stored}
use task_manager_api.Auth.Sessions.{doc}
use task_manager_api.Auth.Password.{is_missing}
use task_manager_api.Auth.Accounts.{
  EmailRequest, Draw, token_lifetime, Services, request_email, register,
}

module _ (env : Env) (mail : Collection EmailDelivery)
    (outbox : Collection (OutboxEvent EmailRequest)) where
  -- A new address, a free id, and a drawn token that no user holds.
  pub record Registers (email : String) (d : Draw) (s : Services env mail outbox) : Type 0 where
    pub unknown : find_by_email env.users env.cache env.list_cache email s.world.users ≡ none
    pub free : doc env d.user_id s.world ≡ none
    pub given : is_missing (some d.token) ≡ false
    pub new_token :
        (j : ℕ) (v : User)
        → doc env j s.world ≡ some v
        → equals v.email_verification_token_hash (env.sha256 d.token) ≡ false

  module _ (email password : String) (d : Draw) (s : Services env mail outbox)
      (r : Registers email d s) where
    abbrev pub registered : World env
    registered = (register env mail outbox email password d s).1.world

    abbrev pub user : User
    user =
        new_user email (env.bcrypt_hash d.salt password) (env.sha256 d.token)
          (d.now + token_lifetime)

    users-register :
        (register env mail outbox email password d s).1.world.users
        ≡ (create_user env.users env.cache env.list_cache d.user_id email
            (env.bcrypt_hash d.salt password)
            (env.sha256 d.token)
            (d.now + token_lifetime)
            s.world.users).1
    unfolding register request_email audit
    users-register = rw (r.unknown, register) refl

    pub attempts-register :
        (register env mail outbox email password d s).1.world.attempts ≡ s.world.attempts
    unfolding register request_email audit
    attempts-register = rw (r.unknown, register) refl

    pub doc-register :
        (j : ℕ) → doc env j registered ≡ (if d.user_id == j then some user else doc env j s.world)
    unfolding create_user
    doc-register j =
        ap (λ us. env.users.find_by_id j us.docs) users-register
        ∙ env.users.find-insert d.user_id j user s.world.users.docs r.free

    -- No one else has the address.
    other_email : (j : ℕ) (v : User) → doc env j s.world ≡ some v → str_eq v.email email ≡ false
    unfolding find_by_email
    other_email j v here =
        let p = λ (u : User). str_eq u.email email in
        elim (Option-cases (env.users.find_one p s.world.users.docs)) [
          | inl nobody ↦ env.users.find_one_complete p s.world.users.docs j v nobody here
          | inr (x, one) ↦ absurd (ground (arith, r.unknown))
        ]

    -- The user that an address finds, where the document under the new id has it.
    pub find_registered :
        (w : World env) (u : User)
        → doc env d.user_id w ≡ some u
        → u.email ≡ email
        → ((j : ℕ) (v : User)
            → doc env j w ≡ some v
            → (d.user_id == j) ≡ false
            → doc env j s.world ≡ some v)
        → find_by_email env.users env.cache env.list_cache email w.users
          ≡ some (d.user_id, with_password u)
    unfolding find_by_email
    find_registered w u here same_email others =
        let one =
          find_one_alone env.users (λ v. str_eq v.email email) w.users.docs d.user_id u here
            (ground (arith, eq_iff u.email email, same_email)) alone in
        rw one refl
      where
        alone :
            (j : ℕ) (v : User) → doc env j w ≡ some v → str_eq v.email email ≡ true → j ≡ d.user_id
        alone j v stored holds = elim (Bool-cases (d.user_id == j)) [
          | inl same ↦ ground arith
          | inr other ↦ absurd (ground (arith, other_email j v (others j v stored other)))
        ]

    -- After a registration with a new address, a free id and a token that no user holds, a login
    -- with the right password is forbidden: the address is not verified. The address is not blocked.
    pub register_unverified :
        (ip : Option String) (at_login : Login.Draw)
        → is_blocked env.counters env.to_lower env.trim email s.world.attempts ≡ false
        → (login env email password ip at_login registered).0 ≡ err forbidden
    unfolding login login_as new_user
    register_unverified ip at_login unblocked =
        let free =
          ap (is_blocked env.counters env.to_lower env.trim email) attempts-register ∙ unblocked in
        let found =
          find_registered registered user (ground (arith, doc-register d.user_id)) refl
            (λ j v here other. ground (arith, doc-register j)) in
        rw (free, found, login) (rw (env.compare-hash d.salt password, login_as) refl)

-- ===== src/Auth/Login/Conditions.antt =====
-- When a login succeeds, and what it leaves behind when it does not.
use task_manager_api.Prelude.{
  ℕ, suc, ◌≡◌, ◌↔◌, refl, inl, inr, ap, true, false, Option, some, String, arith, ok, err,
  unauthorized, Option-cases, Bool-cases, eq_iff,
}
use task_manager_api.Users.{User}
use task_manager_api.Users.Repository.{find_by_email}
use task_manager_api.Auth.BruteForce.{
  is_blocked, record_failure, failures, failures-record_failure, get_key,
}
use task_manager_api.Auth.{Env, World, audit}
use task_manager_api.Auth.Login.{
  Draw, Tokens, compare_stored, count_failure, open_session, login_as, login,
}

module _ (env : Env) (email password : String) (ip : Option String) (d : Draw) (w : World env) where
  -- What a login needs: an email that is not blocked, of a user with this password and a
  -- verified address.
  pub record MayLogIn (id : ℕ) (u : User) : Type 0 where
    pub not_blocked : is_blocked env.counters env.to_lower env.trim email w.attempts ≡ false
    pub found : find_by_email env.users env.cache env.list_cache email w.users ≡ some (id, u)
    pub matches : compare_stored env.bcrypt_compare password u.password ≡ true
    pub verified : u.email_verified ≡ true

  pub login_if :
      (id : ℕ) (u : User)
      → MayLogIn id u
      → login env email password ip d w ≡ open_session env email ip d (id, u) w
  unfolding login login_as
  login_if id u m =
      rw (m.not_blocked, m.found, login) (rw (m.matches, login_as) (rw (m.verified, login_as)))

  login_only_if :
      (t : Tokens)
      → (login env email password ip d w).0 ≡ ok t
      → (id : ℕ) × (u : User) × MayLogIn id u
  unfolding login login_as
  login_only_if t h =
      elim (Bool-cases (is_blocked env.counters env.to_lower env.trim email w.attempts)) [
        | inl blocked ↦ absurd (ground arith)
        | inr free ↦
            elim (Option-cases (find_by_email env.users env.cache env.list_cache email w.users)) [
              | inl unknown ↦ absurd (ground arith)
              | inr ((id, u), known) ↦ (
                id,
                u,
                record {
                  not_blocked = free;
                  found = known;
                  matches = ground arith;
                  verified = ground arith;
                },
              )
            ]
      ]

  -- A login gives tokens exactly when the email is not blocked, a user with that email is found,
  -- the password matches that user's hash and the address is verified.
  pub login_iff :
      ((t : Tokens) × ((login env email password ip d w).0 ≡ ok t))
      ↔ ((id : ℕ) × (u : User) × MayLogIn id u)
  unfolding open_session
  login_iff = (λ (t, h). login_only_if t h, λ (id, u, m). (_, ap (λ x. x.0) (login_if id u m)))

  -- A wrong password for a known email that is not blocked counts one failure for it, is refused,
  -- and leaves the users as they are.
  pub login_wrong_password :
      (id : ℕ) (u : User)
      → is_blocked env.counters env.to_lower env.trim email w.attempts ≡ false
      → find_by_email env.users env.cache env.list_cache email w.users ≡ some (id, u)
      → compare_stored env.bcrypt_compare password u.password ≡ false
      → let (answer, w') = login env email password ip d w in
        (answer ≡ err unauthorized)
        × (failures env.counters env.to_lower env.trim email w'.attempts
            ≡ suc (failures env.counters env.to_lower env.trim email w.attempts))
        × (w'.users ≡ w.users)
  unfolding login login_as count_failure audit
  login_wrong_password id u free known wrong =
      rw (free, known, login) (rw (wrong, login_as) (refl, counted, refl))
    where
      counted :
          failures env.counters env.to_lower env.trim email
            (record_failure env.counters env.to_lower env.trim email w.attempts)
          ≡ suc (failures env.counters env.to_lower env.trim email w.attempts)
      counted =
          let key = get_key env.counters env.to_lower env.trim email in
          ground (
            arith,
            failures-record_failure env.counters env.to_lower env.trim email email w.attempts,
            eq_iff key key,
          )

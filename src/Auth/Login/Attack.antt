-- ===== src/Auth/Login/Attack.antt =====
-- Guessing a password: the count of failures against a run of wrong logins.
use task_manager_api.Prelude.{
  ℕ, suc, ◌+◌, ◌≤◌, ◌≡◌, refl, inl, inr, ◌∙◌, true, false, Option, some, List, [], ◌∷◌, String,
  arith, leb, All, length, err, unauthorized, Bool-cases,
}
use task_manager_api.Users.{User}
use task_manager_api.Users.Repository.{find_by_email}
use task_manager_api.Auth.BruteForce.{is_blocked, failures, is_blocked-failures, max_attempts}
use task_manager_api.Auth.{Env, World, audit}
use task_manager_api.Auth.Login.{Draw, compare_stored, login}
use task_manager_api.Auth.Login.Conditions.{login_wrong_password}

module _ (env : Env) (email : String) where
  abbrev pub Try : Type 0
  Try = String × Option String × Draw

  -- One login for the email after another, each with its password and its address.
  pub attack : List Try → World env → World env
  attack [] w = w
  attack ((password, ip, d) ∷ ps) w = attack ps (login env email password ip d w).1

  abbrev count : World env → ℕ
  count w = failures env.counters env.to_lower env.trim email w.attempts

  login_blocked :
      (password : String) (ip : Option String) (d : Draw) (w : World env)
      → max_attempts ≤ count w
      → ((login env email password ip d w).0 ≡ err unauthorized)
        × ((login env email password ip d w).1.attempts ≡ w.attempts)
        × ((login env email password ip d w).1.users ≡ w.users)
  unfolding login audit
  login_blocked password ip d w h =
      let blocked : is_blocked env.counters env.to_lower env.trim email w.attempts ≡ true =
        ground (arith, is_blocked-failures env.counters env.to_lower env.trim email w.attempts) in
      rw (blocked, login) (refl, refl, refl)

  -- A refused login leaves the count as it is, so that all the further ones are refused.
  stays_blocked :
      (ps : List Try) (w : World env) → max_attempts ≤ count w → max_attempts ≤ count (attack ps w)
  unfolding attack
  stays_blocked [] w h = h
  stays_blocked ((password, ip, d) ∷ ps) w h =
      let (a, b, c) = login_blocked password ip d w h in
      stays_blocked ps (login env email password ip d w).1 (rw b h)

  module _ (id : ℕ) (u : User) where
    abbrev Known : World env → Type 0
    Known w = find_by_email env.users env.cache env.list_cache email w.users ≡ some (id, u)

    abbrev pub IsWrong : Try → Type 0
    IsWrong x = compare_stored env.bcrypt_compare x.0 u.password ≡ false

    one_guess :
        (password : String) (ip : Option String) (d : Draw) (w : World env)
        → Known w
        → compare_stored env.bcrypt_compare password u.password ≡ false
        → Known (login env email password ip d w).1
          × ((n : ℕ)
              → max_attempts ≤ suc n + count w
              → max_attempts ≤ n + count (login env email password ip d w).1)
    one_guess password ip d w known wrong = elim (Bool-cases (leb max_attempts (count w))) [
      | inl many ↦
          let (a, b, c) = login_blocked password ip d w (ground arith) in
          (rw c known, λ n h. rw b (ground arith))
      | inr few ↦
          let free : is_blocked env.counters env.to_lower env.trim email w.attempts ≡ false =
            is_blocked-failures env.counters env.to_lower env.trim email w.attempts ∙ few in
          let (a, b, c) = login_wrong_password env email password ip d w id u free known wrong in
          (rw c known, λ n h. omega (arith, b))
    ]

    attack_counts :
        (ps : List Try) (w : World env)
        → Known w
        → All IsWrong ps
        → max_attempts ≤ length ps + count w
        → max_attempts ≤ count (attack ps w)
    unfolding attack
    attack_counts [] w known ws h = omega arith
    attack_counts ((password, ip, d) ∷ ps) w known ws h =
        let (known', next) = one_guess password ip d w known ws.0 in
        attack_counts ps (login env email password ip d w).1 known' ws.1 (next (length ps) h)

    -- After wrong guesses for the email of a known user that make five failures with those counted
    -- before, from any addresses, every further login for it is refused, the right password included,
    -- however many of them there are. No counter runs out in between.
    pub attack_is_blocked :
        (ps further : List Try) (password : String) (ip : Option String) (d : Draw) (w : World env)
        → find_by_email env.users env.cache env.list_cache email w.users ≡ some (id, u)
        → All IsWrong ps
        → max_attempts ≤ length ps + failures env.counters env.to_lower env.trim email w.attempts
        → (login env email password ip d (attack further (attack ps w))).0 ≡ err unauthorized
    attack_is_blocked ps further password ip d w known ws h =
        (login_blocked password ip d (attack further (attack ps w))
          (stays_blocked further (attack ps w) (attack_counts ps w known ws h))).0

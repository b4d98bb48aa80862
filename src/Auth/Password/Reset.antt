-- ===== src/Auth/Password/Reset.antt =====
-- What a password reset does, and that its token is good for one reset.
use task_manager_api.Prelude.{
  ℕ, ◌≡◌, refl, inl, inr, ap, true, false, Option, none, some, String, arith, if◌then◌else◌, ◌==◌,
  Bool-cases, Option-cases, ok, err, bad_request,
}
use task_manager_api.Users.{
  User, equals, awaits_reset, with_password, with_new_password, cleared_reset, cleared_refresh,
}
use task_manager_api.Users.Repository.{
  update_by_id, find_by_password_reset_token, update_password, clear_password_reset_token,
  clear_refresh_token,
}
use task_manager_api.Auth.{Env, World, UserStore, audit}
use task_manager_api.Auth.Sessions.{doc}
use task_manager_api.Auth.Password.{is_missing, token_text, change_password, reset_password}

module _ (env : Env) where
  pub find-update_by_id :
      (id j : ℕ) (f : User → User) (s : UserStore env)
      → env.users.find_by_id j (update_by_id env.users env.cache env.list_cache id f s).1.docs ≡ (
          if id == j
          then (elim (env.users.find_by_id j s.docs) [ none ↦ none | some u ↦ some (f u) ])
          else env.users.find_by_id j s.docs)
  unfolding update_by_id
  find-update_by_id id j f s = ground (arith, env.users.find-update id j (λ _. true) f s.docs)

  -- The document after a reset.
  abbrev pub renewed : ℕ → String → User → User
  renewed salt new_password u = record u {
    password = some (env.bcrypt_hash salt new_password);
    password_reset_token_hash = none;
    password_reset_expires_at = none;
    refresh_token_hash = none;
    token_family = none;
    current_token_id = none;
  }

  pub doc-change_password :
      (id j salt : ℕ) (new_password : String) (w : World env)
      → doc env j (change_password env id salt new_password w) ≡ (
          if id == j
          then (elim (doc env j w) [ none ↦ none | some u ↦ some (renewed salt new_password u) ])
          else doc env j w)
  unfolding change_password update_password clear_password_reset_token clear_refresh_token
      with_new_password cleared_reset cleared_refresh
  doc-change_password id j salt new_password w =
      let s = w.users in
      let hash = env.bcrypt_hash salt new_password in
      let s1 = (update_by_id env.users env.cache env.list_cache id (with_new_password hash) s).1 in
      let s2 = (update_by_id env.users env.cache env.list_cache id cleared_reset s1).1 in
      ground (
        arith,
        find-update_by_id id j (with_new_password hash) s,
        find-update_by_id id j cleared_reset s1,
        find-update_by_id id j cleared_refresh s2,
      )

  -- The user that a reset token stands for.
  pub record Awaits (token : Option String) (now : ℕ) (w : World env) (id : ℕ) (u : User)
      : Type 0 where
    pub stored : doc env id w ≡ some u
    pub given : is_missing token ≡ false
    pub waits : awaits_reset (env.sha256 (token_text token)) now u ≡ true
    -- No other user holds the same token.
    pub alone :
        (j : ℕ) (v : User)
        → doc env j w ≡ some v
        → equals v.password_reset_token_hash (env.sha256 (token_text token)) ≡ true
        → j ≡ id

  reset_refused :
      (token : Option String) (password : String) (now salt : ℕ) (w : World env)
      → is_missing token ≡ false
      → find_by_password_reset_token env.users env.cache env.list_cache
          (env.sha256 (token_text token))
          now
          w.users
        ≡ none
      → ((reset_password env token password now salt w).0 ≡ err bad_request)
        × ((reset_password env token password now salt w).1.users ≡ w.users)
  unfolding reset_password audit
  reset_refused token password now salt w given nobody =
      rw (given, reset_password) (rw (nobody, reset_password) (refl, refl))

  module _ (token : Option String) (now : ℕ) (w : World env) (id : ℕ) (u : User)
      (a : Awaits token now w id u) where
    find_awaiting :
        find_by_password_reset_token env.users env.cache env.list_cache
          (env.sha256 (token_text token))
          now
          w.users
        ≡ some (id, with_password u)
    unfolding find_by_password_reset_token
    find_awaiting =
        let p = awaits_reset (env.sha256 (token_text token)) now in
        elim (Option-cases (env.users.find_one p w.users.docs)) [
          | inl nobody ↦ absurd (
              ground
                (arith, env.users.find_one_complete p w.users.docs id u nobody a.stored, a.waits))
          | inr ((j, v), one) ↦
              let (stored, waits) = env.users.find_one_sound p w.users.docs (j, v) one in
              let same = a.alone j v stored (holds_token v waits) in
              rw one (ground (arith, ap (λ k. doc env k w) same, a.stored))
        ]
      where
        holds_token :
            (v : User)
            → awaits_reset (env.sha256 (token_text token)) now v ≡ true
            → equals v.password_reset_token_hash (env.sha256 (token_text token)) ≡ true
        holds_token v h = unfold awaits_reset in ground arith

    pub reset_lem :
        (new_password : String) (salt : ℕ)
        → reset_password env token new_password now salt w
          ≡ (ok "Password reset successfully", change_password env id salt new_password w)
    unfolding reset_password
    reset_lem new_password salt = rw (a.given, reset_password) (rw (find_awaiting, reset_password))

    -- A reset with a token that one user alone awaits gives the user the new password, takes away the reset token and
    -- every session of that user, and changes no other user.
    pub reset_password_effect :
        (new_password : String) (salt j : ℕ)
        → let (answer, w') = reset_password env token new_password now salt w in
          (answer ≡ ok "Password reset successfully")
          × (doc env id w' ≡ some (renewed salt new_password u))
          × (doc env j w' ≡ (if id == j then some (renewed salt new_password u) else doc env j w))
    reset_password_effect new_password salt j =
        let own = doc-change_password id id salt new_password w in
        let each = doc-change_password id j salt new_password w in
        rw (reset_lem new_password salt) (
          refl,
          ground (arith, own, a.stored),
          ground (arith, each, ap (λ k. doc env k w), a.stored),
        )

    spent :
        (new_password : String) (salt later : ℕ)
        → find_by_password_reset_token env.users env.cache env.list_cache
            (env.sha256 (token_text token))
            later
            (change_password env id salt new_password w).users
          ≡ none
    unfolding find_by_password_reset_token
    spent new_password salt later =
        let p = awaits_reset (env.sha256 (token_text token)) later in
        let docs = (change_password env id salt new_password w).users.docs in
        elim (Option-cases (env.users.find_one p docs)) [
          | inl nobody ↦ rw nobody refl
          | inr ((j, v), one) ↦
              let (stored, waits) = env.users.find_one_sound p docs (j, v) one in
              absurd (nobody_waits j v stored waits)
        ]
      where
        nobody_waits :
            (j : ℕ) (v : User)
            → doc env j (change_password env id salt new_password w) ≡ some v
            → awaits_reset (env.sha256 (token_text token)) later v ≡ true
            → ⊥
        nobody_waits j v stored waits = elim (Bool-cases (id == j)) [
          | inl mine ↦
              unfold awaits_reset in
              ground
                (arith, doc-change_password id j salt new_password w, Option-cases (doc env j w))
          | inr other ↦
              unfold awaits_reset in
              ground (arith, doc-change_password id j salt new_password w, a.alone j v)
        ]

    -- A token that one user alone awaits cannot be used for a second reset, at any time: the answer
    -- is an error and no user changes.
    pub reset_token_single_use :
        (new_password other_password : String) (salt salt' later : ℕ)
        → let w' = (reset_password env token new_password now salt w).1 in
          let (answer, w2) = reset_password env token other_password later salt' w' in
          (answer ≡ err bad_request) × (w2.users ≡ w'.users)
    reset_token_single_use new_password other_password salt salt' later =
        rw (reset_lem new_password salt) (
          reset_refused token other_password later salt'
            (change_password env id salt new_password w) a.given (spent new_password salt later))

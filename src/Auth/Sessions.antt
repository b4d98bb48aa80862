-- ===== src/Auth/Sessions.antt =====
-- The life of a session: login, rotation of the refresh token, reuse, logout.
pub mod SingleUse
use task_manager_api.Prelude.{
  ℕ, ◌+◌, ◌≤◌, ◌<◌, ◌≡◌, refl, ◌≢◌, ◌∙◌, inl, inr, ap, Bool, true, false, Option, none, some,
  String, arith, if◌then◌else◌, not, str_eq, eq_iff, Result, ok, err, unauthorized, Option-cases,
  ◌==◌,
}
use task_manager_api.Users.{User, equals, with_refresh_token, cleared_refresh, updated_refresh}
use task_manager_api.Users.Repository.{
  Found, invalidate, update_by_id, find_by_email, find_by_id_with_refresh_token,
  update_refresh_token, clear_refresh_token,
}
use task_manager_api.Auth.{
  Env, World, UserStore, RefreshClaims, audit, generate_access_token, generate_refresh_token,
}
use task_manager_api.Auth.Login
use task_manager_api.Auth.Login.{Tokens, open_session, login, logout}
use task_manager_api.Auth.Login.Conditions.{MayLogIn, login_if}
use task_manager_api.Auth.Refresh.{Draw, refuse, reuse_detected, rotate, refresh_as, refresh}

module _ (env : Env) where
  abbrev pub doc : ℕ → World env → Option User
  doc id w = env.users.find_by_id id w.users.docs

  -- The stored session of a user, and that the token is the current one of it.
  pub record Session (w : World env) (id : ℕ) (token family jti : String) : Type 0 where
    pub user : User
    pub hash : String
    pub stored : doc id w ≡ some user
    pub in_family : user.token_family ≡ some family
    pub current : user.current_token_id ≡ some jti
    pub hashed : user.refresh_token_hash ≡ some hash
    pub matches : env.bcrypt_compare token hash ≡ true

  -- No refresh token of the user is kept.
  pub record IsClosed (w : World env) (id : ℕ) : Type 0 where
    pub user : User
    pub stored : doc id w ≡ some user
    pub unhashed : user.refresh_token_hash ≡ none

  find-update :
      (id : ℕ) (f : User → User) (u : User) (s : UserStore env)
      → env.users.find_by_id id s.docs ≡ some u
      → env.users.find_by_id id (update_by_id env.users env.cache env.list_cache id f s).1.docs
        ≡ some (f u)
  unfolding update_by_id
  find-update id f u s h = ground (arith, env.users.find-update id id (λ _. true) f s.docs)

  pub clear-IsClosed :
      (id : ℕ) (u : User) (w : World env)
      → doc id w ≡ some u
      → IsClosed
          (record w { users = clear_refresh_token env.users env.cache env.list_cache id w.users })
          id
  unfolding clear_refresh_token cleared_refresh
  clear-IsClosed id u w h = record {
    user = cleared_refresh u;
    stored = find-update id cleared_refresh u w.users h;
    unhashed = refl;
  }

  pub audit-users :
      (actor : Option ℕ) (action resource : String) (ip : Option String)
      (reason : Option (String × String)) (w : World env)
      → (audit env actor action resource ip reason w).users ≡ w.users
  unfolding audit
  audit-users actor action resource ip reason w = refl

  pub update-Session :
      (id salt : ℕ) (token family jti : String) (u : User) (w w' : World env)
      → doc id w ≡ some u
      → w'.users
        ≡ update_refresh_token env.users env.cache env.list_cache id
            (some (env.bcrypt_hash salt token))
            (some family)
            (some jti)
            w.users
      → Session w' id token family jti
  unfolding update_refresh_token updated_refresh
  update-Session id salt token family jti u w w' h same = record {
    user = updated_refresh (some (env.bcrypt_hash salt token)) (some family) (some jti) u;
    hash = env.bcrypt_hash salt token;
    stored = rw same (find-update id _ u w.users h);
    in_family = refl;
    current = refl;
    hashed = refl;
    matches = env.compare-hash salt token;
  }

  -- A token whose claims are those of the session is exchanged for a new pair.
  pub refresh_current :
      (id : ℕ) (token family jti : String) (d : Draw) (w : World env)
      (s : Session w id token family jti)
      → env.verify_refresh d.now token ≡ some (record { sub = id; family = family; jti = jti })
      → (u : User) × (refresh env token d w ≡ rotate env family d (id, u) w)
  unfolding refresh refresh_as find_by_id_with_refresh_token rotate generate_access_token
  refresh_current id token family jti d w s v = (
    with_refresh_token s.user,
    rw (v, refresh) (rw (s.stored, refresh) (rw (s.hashed, refresh) accepted)),
  )
    where
      accepted :
          refresh_as env token
            (record { sub = id; family = family; jti = jti })
            s.hash
            d
            (id, with_refresh_token s.user)
            w
          ≡ rotate env family d (id, with_refresh_token s.user) w
      accepted =
          rw (s.in_family, s.current, s.matches, refresh_as)
            (ground (arith, eq_iff family family, eq_iff jti jti))

  -- A token of the session's family that is not the current one closes the session.
  pub refresh_stale :
      (id : ℕ) (token family jti old : String) (d : Draw) (w : World env) (stale : String)
      → Session w id token family jti
      → old ≢ jti
      → env.verify_refresh d.now stale ≡ some (record { sub = id; family = family; jti = old })
      → refresh env stale d w ≡ reuse_detected env id "token_id_mismatch" w
  unfolding refresh refresh_as find_by_id_with_refresh_token
  refresh_stale id token family jti old d w stale s n v =
      rw (v, refresh) (rw (s.stored, refresh) (rw (s.hashed, refresh) refused))
    where
      refused :
          refresh_as env stale
            (record { sub = id; family = family; jti = old })
            s.hash
            d
            (id, with_refresh_token s.user)
            w
          ≡ reuse_detected env id "token_id_mismatch" w
      refused =
          rw (s.in_family, s.current, refresh_as)
            (ground (arith, eq_iff family family, eq_iff jti old))

  -- With the session closed no token of the user is accepted.
  pub refresh_closed :
      (id : ℕ) (token : String) (claims : RefreshClaims) (d : Draw) (w : World env)
      → IsClosed w id
      → env.verify_refresh d.now token ≡ some claims
      → claims.sub ≡ id
      → (refresh env token d w).0 ≡ err unauthorized
  unfolding refresh find_by_id_with_refresh_token
  refresh_closed id token claims d w c v same =
      rw (v, refresh) (rw (same, refresh) (rw (c.stored, refresh) (rw (c.unhashed, refresh) refl)))

-- ===== src/Auth/Sessions/SingleUse.antt =====
-- What the session guarantees over several requests.
use task_manager_api.Prelude.{
  Option-cases, inl, inr, str_eq, ℕ, ◌+◌, ◌≤◌, ◌<◌, ◌≡◌, refl, ◌≢◌, ap, Option, some, String, arith,
  ok, err, unauthorized,
}
use task_manager_api.Users.{User}
use task_manager_api.Users.Repository.{find_by_email}
use task_manager_api.Auth.{
  Env, World, RefreshClaims, audit, generate_access_token, generate_refresh_token,
}
use task_manager_api.Auth.Login
use task_manager_api.Auth.Login.{Tokens, open_session, login, logout}
use task_manager_api.Auth.Login.Conditions.{MayLogIn, login_if}
use task_manager_api.Auth.Refresh.{Draw, refuse, reuse_detected, rotate, refresh}
use task_manager_api.Auth.Sessions.{
  doc, Session, IsClosed, clear-IsClosed, update-Session, refresh_current, refresh_stale,
  refresh_closed,
}

module _ (env : Env) where
  reuse-IsClosed :
      (id : ℕ) (u : User) (reason : String) (w : World env)
      → doc env id w ≡ some u
      → IsClosed env (reuse_detected env id reason w).1 id
  unfolding reuse_detected refuse audit
  reuse-IsClosed id u reason w h =
      let c = clear-IsClosed env id u w h in
      record { user = c.user; stored = c.stored; unhashed = c.unhashed }

  rotate-Session :
      (id : ℕ) (u v : User) (family : String) (d : Draw) (w : World env)
      → doc env id w ≡ some u
      → Session env
          (rotate env family d (id, v) w).1
          id
          (generate_refresh_token env d.now id family d.token_id)
          family
          d.token_id
  unfolding rotate audit
  rotate-Session id u v family d w h = update-Session env id d.salt _ family d.token_id u w _ h refl

  -- A refresh token is good for one use: it is exchanged for a new pair, and when it is presented
  -- again the request is refused and the session closed, so that no refresh token of the user is
  -- accepted any more, the successor included. The new token's id must be a fresh one.
  pub refresh_token_single_use :
      (id : ℕ) (token family jti later_token : String) (claims : RefreshClaims)
      (d again after : Draw) (w : World env)
      → Session env w id token family jti
      → jti ≢ d.token_id
      → env.verify_refresh d.now token ≡ some (record { sub = id; family = family; jti = jti })
      → env.verify_refresh again.now token ≡ some (record { sub = id; family = family; jti = jti })
      → env.verify_refresh after.now later_token ≡ some claims
      → claims.sub ≡ id
      → let w1 = (refresh env token d w).1 in
        let w2 = (refresh env token again w1).1 in
        ((t : Tokens) × ((refresh env token d w).0 ≡ ok t))
        × ((refresh env token again w1).0 ≡ err unauthorized)
        × ((refresh env later_token after w2).0 ≡ err unauthorized)
  unfolding rotate reuse_detected
  refresh_token_single_use id token family jti later_token claims d again after w s n v v' v3 same =
      let (u, first) = refresh_current env id token family jti d w s v in
      let w1 = (rotate env family d (id, u) w).1 in
      let s1 = rotate-Session id s.user u family d w s.stored in
      let second = refresh_stale env id _ family d.token_id jti again w1 token s1 n v' in
      let closed = reuse-IsClosed id s1.user "token_id_mismatch" w1 s1.stored in
      (
        rw first (_, refl),
        rw first (ap (λ x. x.0) second),
        rw (first, second)
            (refresh_closed env id later_token claims after
              (reuse_detected env id "token_id_mismatch" w1).1 closed v3 same),
      )

  find_by_email_stored :
      (email : String) (id : ℕ) (u : User) (w : World env)
      → find_by_email env.users env.cache env.list_cache email w.users ≡ some (id, u)
      → (u' : User) × (doc env id w ≡ some u')
  unfolding find_by_email
  find_by_email_stored email id u w h =
      elim (Option-cases (env.users.find_one (λ u. str_eq u.email email) w.users.docs)) [
        | inl nobody ↦ absurd (ground (arith, rw nobody at h))
        | inr ((i, u'), one) ↦
            let (stored, m) =
              env.users.find_one_sound (λ u. str_eq u.email email) w.users.docs (i, u') one in
            let same : i ≡ id = ground (arith, rw one at h) in (u', rw (← same) stored)
      ]

  -- A login's refresh token is the current one of a session, and is exchanged for a new pair at any
  -- time of its life.
  pub login-refresh :
      (email password : String) (ip : Option String) (d : Login.Draw) (next : Draw) (w : World env)
      (id : ℕ) (u : User)
      → MayLogIn env email password ip d w id u
      → d.now ≤ next.now
      → next.now < d.now + env.refresh_lifetime
      → (t t' : Tokens) × ((login env email password ip d w).0 ≡ ok t)
        × ((refresh env t.refresh_token next (login env email password ip d w).1).0 ≡ ok t')
  unfolding rotate open_session generate_refresh_token audit
  login-refresh email password ip d next w id u m from until =
      let opened = login_if env email password ip d w id u m in
      let w' = (open_session env email ip d (id, u) w).1 in
      let token = generate_refresh_token env d.now id d.family d.token_id in
      let (u', stored) = find_by_email_stored email id u w m.found in
      let s : Session env w' id token d.family d.token_id =
        update-Session env id d.salt token d.family d.token_id u' w w' stored refl in
      let (v, exchanged) =
        refresh_current env id token d.family d.token_id next w' s
          (env.verify-sign d.now next.now _ from until) in
      (
        record { access_token = generate_access_token env d.now (id, u); refresh_token = token },
        record {
          access_token = generate_access_token env next.now (id, v);
          refresh_token = generate_refresh_token env next.now id d.family next.token_id;
        },
        ap (λ x. x.0) opened,
        rw opened (ap (λ x. x.0) exchanged),
      )

  -- After a logout no refresh token of the user is accepted, whenever it was signed.
  pub logout_closes :
      (id : ℕ) (u : User) (token : String) (claims : RefreshClaims) (d : Draw) (w : World env)
      → doc env id w ≡ some u
      → env.verify_refresh d.now token ≡ some claims
      → claims.sub ≡ id
      → (refresh env token d (logout env id w)).0 ≡ err unauthorized
  unfolding logout audit
  logout_closes id u token claims d w stored v same =
      let c = clear-IsClosed env id u w stored in
      refresh_closed env id token claims d (logout env id w)
        (record { user = c.user; stored = c.stored; unhashed = c.unhashed }) v same

-- ===== src/Users/Coherence.antt =====
-- The cache of users and the database: what `findById` returns is what the database holds.
use task_manager_api.Prelude.{
  ℕ, ◌≡◌, refl, Bool, none, some, Option, List, String, arith, ◌==◌, Option-cases, Bool-cases, inl,
  inr,
}
use task_manager_api.Platform.Collection.{Collection}
use task_manager_api.Platform.Cache.{Cache}
use task_manager_api.Users.{User, selected, new_user, verified, awaits_verification}
use task_manager_api.Users.Repository.{
  Found, Users, cache_time, invalidate, update_by_id, find_by_id, create_user, clear_refresh_token,
  update_refresh_token, set_email_verification_token, verify_email, find_all, delete_user, all_key,
  clear_email_verification_token, set_password_reset_token, clear_password_reset_token,
  update_password,
}

module _ (db : Collection User) (cache : Cache User) (list_cache : Cache (List Found)) where
  -- A cached user is the stored one, without the fields that are not selected.
  abbrev pub IsCoherent : Users db cache list_cache → Type 0
  IsCoherent s =
      (id : ℕ) (u : User)
      → cache.get id s.cached ≡ some u
      → (d : User) × (db.find_by_id id s.docs ≡ some d) × (u ≡ selected d)

  -- The answer of an uncached lookup.
  abbrev pub lookup : ℕ → Users db cache list_cache → Option Found
  lookup id s = elim (db.find_by_id id s.docs) [ none ↦ none | some d ↦ some (id, selected d) ]

  -- The cached lookup answers as the database would, and keeps the cache coherent.
  pub lookup-find_by_id :
      (id : ℕ) (s : Users db cache list_cache)
      → IsCoherent s
      → ((find_by_id db cache list_cache id s).0 ≡ lookup id s)
        × IsCoherent (find_by_id db cache list_cache id s).1
  unfolding find_by_id
  lookup-find_by_id id s h = elim (Option-cases (cache.get id s.cached)) [
    | inl miss ↦ elim (Option-cases (db.find_by_id id s.docs)) [
      | inl absent ↦ rw (miss, absent, find_by_id) (rw (absent, lookup) refl, h)
      | inr (d, here) ↦ rw (miss, here, find_by_id) (rw (here, lookup) refl, cached_now d here)
    ]
    | inr (u, hit) ↦
        let (d, here, same) = h id u hit in
        rw (hit, find_by_id) (rw (here, lookup) (ground arith), h)
  ]
    where
      cached_now :
          (d : User)
          → db.find_by_id id s.docs ≡ some d
          → IsCoherent (record s { cached = cache.set id (selected d) cache_time s.cached })
      cached_now d here j u q = elim (Bool-cases (id == j)) [
        | inl same ↦
            (d, ground arith, ground (arith, cache.get-set id j (selected d) cache_time s.cached))
        | inr other ↦ h j u (ground (arith, cache.get-set id j (selected d) cache_time s.cached))
      ]

  update-IsCoherent :
      (id : ℕ) (p : User → Bool) (update : User → User) (s : Users db cache list_cache)
      → IsCoherent s
      → IsCoherent (
          invalidate db cache list_cache id
            (record s { docs = (db.find_one_and_update id p update s.docs).1 }))
  unfolding invalidate
  update-IsCoherent id p update s h j u q = elim (Bool-cases (id == j)) [
    | inl same ↦ absurd (ground (arith, cache.get-del id j s.cached))
    | inr other ↦
        let (d, here, eq) = h j u (ground (arith, cache.get-del id j s.cached)) in
        (d, ground (arith, db.find-update id j p update s.docs), eq)
  ]

  find_by_id-IsCoherent :
      (id : ℕ) (s : Users db cache list_cache)
      → IsCoherent s
      → IsCoherent (find_by_id db cache list_cache id s).1
  find_by_id-IsCoherent id s h = (lookup-find_by_id id s h).1

  create_user-IsCoherent :
      (fresh : ℕ) (email password token_hash : String) (t : ℕ) (s : Users db cache list_cache)
      → db.find_by_id fresh s.docs ≡ none
      → IsCoherent s
      → IsCoherent (create_user db cache list_cache fresh email password token_hash t s).1
  unfolding create_user
  create_user-IsCoherent fresh email password token_hash t s free h j u q =
      let (d, here, eq) = h j u q in
      (
        d,
        ground (arith, db.find-insert fresh j (new_user email password token_hash t) s.docs free),
        eq,
      )

  verify_email-IsCoherent :
      (token_hash : String) (now : ℕ) (s : Users db cache list_cache)
      → IsCoherent s
      → IsCoherent (verify_email db cache list_cache token_hash now s).1
  unfolding verify_email
  verify_email-IsCoherent token_hash now s h =
      elim (Option-cases (db.find_one (awaits_verification token_hash now) s.docs)) [
        | inl nobody ↦ rw (nobody, verify_email) h
        | inr ((id, u), waits) ↦
            rw (waits, verify_email)
              (update-IsCoherent id (awaits_verification token_hash now) verified s h)
      ]

  find_all-IsCoherent :
      (s : Users db cache list_cache) → IsCoherent s → IsCoherent (find_all db cache list_cache s).1
  unfolding find_all
  find_all-IsCoherent s h = elim (Option-cases (list_cache.get all_key s.cached_list)) [
    | inl miss ↦ rw (miss, find_all) h
    | inr (us, hit) ↦ rw (hit, find_all) h
  ]

  delete_user-IsCoherent :
      (id : ℕ) (s : Users db cache list_cache)
      → IsCoherent s
      → IsCoherent (delete_user db cache list_cache id s).1
  unfolding delete_user invalidate
  delete_user-IsCoherent id s h j u q = elim (Bool-cases (id == j)) [
    | inl same ↦ absurd (ground (arith, cache.get-del id j s.cached))
    | inr other ↦
        let (d, here, eq) = h j u (ground (arith, cache.get-del id j s.cached)) in
        (d, ground (arith, db.find-delete id j s.docs), eq)
  ]

-- The repository's methods that write, with the two lookups that fill a cache.
pub data Call : Type 0 where
  finds deletes clears_refresh clears_verification clears_reset : ℕ → Call
  finds_all : Call
  creates : ℕ → String → String → String → ℕ → Call
  updates_refresh : ℕ → Option String → Option String → Option String → Call
  sets_verification sets_reset : ℕ → String → ℕ → Call
  verifies : String → ℕ → Call
  updates_password : ℕ → String → Call

module _ (db : Collection User) (cache : Cache User) (list_cache : Cache (List Found)) where
  abbrev pub after : Call → Users db cache list_cache → Users db cache list_cache
  after (finds id) s = (find_by_id db cache list_cache id s).1
  after finds_all s = (find_all db cache list_cache s).1
  after (deletes id) s = (delete_user db cache list_cache id s).1
  after (clears_refresh id) s = clear_refresh_token db cache list_cache id s
  after (clears_verification id) s = clear_email_verification_token db cache list_cache id s
  after (clears_reset id) s = clear_password_reset_token db cache list_cache id s
  after (creates id e p h t) s = (create_user db cache list_cache id e p h t s).1
  after (updates_refresh id h f t) s = update_refresh_token db cache list_cache id h f t s
  after (sets_verification id h t) s = set_email_verification_token db cache list_cache id h t s
  after (sets_reset id h t) s = set_password_reset_token db cache list_cache id h t s
  after (verifies h now) s = (verify_email db cache list_cache h now s).1
  after (updates_password id h) s = update_password db cache list_cache id h s

  -- A new document takes an id that is free: the driver refuses any other.
  abbrev pub IsAllowed : Call → Users db cache list_cache → Type 0
  IsAllowed (creates id e p h t) s = db.find_by_id id s.docs ≡ none
  IsAllowed c s = Unit

  pub data Trace (s : Users db cache list_cache) : Users db cache list_cache → Type 0 where
    here : Trace s s
    after_call :
        {t : Users db cache list_cache} (c : Call) → IsAllowed c t → Trace s t → Trace s (after c t)

  after-IsCoherent :
      (c : Call) (s : Users db cache list_cache)
      → IsAllowed c s
      → IsCoherent db cache list_cache s
      → IsCoherent db cache list_cache (after c s)
  unfolding clear_refresh_token clear_email_verification_token clear_password_reset_token
      update_refresh_token set_email_verification_token set_password_reset_token update_password
      update_by_id
  after-IsCoherent (finds id) s a h = find_by_id-IsCoherent db cache list_cache id s h
  after-IsCoherent finds_all s a h = find_all-IsCoherent db cache list_cache s h
  after-IsCoherent (deletes id) s a h = delete_user-IsCoherent db cache list_cache id s h
  after-IsCoherent (clears_refresh id) s a h = update-IsCoherent db cache list_cache id _ _ s h
  after-IsCoherent (clears_verification id) s a h = update-IsCoherent db cache list_cache id _ _ s h
  after-IsCoherent (clears_reset id) s a h = update-IsCoherent db cache list_cache id _ _ s h
  after-IsCoherent (creates id e p k t) s a h =
      create_user-IsCoherent db cache list_cache id e p k t s a h
  after-IsCoherent (updates_refresh id k f t) s a h =
      update-IsCoherent db cache list_cache id _ _ s h
  after-IsCoherent (sets_verification id k t) s a h =
      update-IsCoherent db cache list_cache id _ _ s h
  after-IsCoherent (sets_reset id k t) s a h = update-IsCoherent db cache list_cache id _ _ s h
  after-IsCoherent (verifies k now) s a h = verify_email-IsCoherent db cache list_cache k now s h
  after-IsCoherent (updates_password id k) s a h = update-IsCoherent db cache list_cache id _ _ s h

  Trace-IsCoherent :
      {s t : Users db cache list_cache}
      → IsCoherent db cache list_cache s
      → Trace s t
      → IsCoherent db cache list_cache t
  Trace-IsCoherent h here = h
  Trace-IsCoherent h (after_call {t = t} c a r) = after-IsCoherent c t a (Trace-IsCoherent h r)

  -- From a coherent cache (an empty one, say) and through any sequence of the repository's methods,
  -- the cached lookup of a user answers what the database holds at that moment.
  pub find_by_id-lookup :
      (id : ℕ) (s t : Users db cache list_cache)
      → IsCoherent db cache list_cache s
      → Trace s t
      → (find_by_id db cache list_cache id t).0 ≡ lookup db cache list_cache id t
  find_by_id-lookup id s t h r =
      (lookup-find_by_id db cache list_cache id t (Trace-IsCoherent h r)).0

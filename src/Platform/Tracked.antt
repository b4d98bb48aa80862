-- ===== src/Platform/Tracked.antt =====
-- The cache of a repository beside the `Set` of the keys that it has written, as the repositories of
-- workspaces, memberships, invitations and tasks keep it: a query reads through the cache and
-- adds its key, and a write deletes every key of the set.
use task_manager_api.Prelude.{
  ℕ, ◌≡◌, refl, sym, ◌∙◌, ap, ◌⊎◌, inl, inr, Option, none, some, List, [], ◌∷◌, Option-cases,
}
use task_manager_api.Platform.KeyedCache.{KeyedCache}

module _ {K V : Type 0} (cache : KeyedCache K V) where
  -- A set that holds a key twice is as good as one that holds it once.
  pub record Tracked : Type 0 where
    pub cached : cache.Store
    pub keys : List K

  -- `set` of the cache, and `add` of the set.
  abbrev pub remember : K → V → ℕ → Tracked → Tracked
  remember k v t s = record { cached = cache.set k v t s.cached; keys = k ∷ s.keys }

  -- A query whose answer is one document or none: only a document is kept.
  unfoldable pub read_one : K → ℕ → Option V → Tracked → Option V × Tracked
  read_one k t found s = elim (cache.get k s.cached) [
    | some v ↦ (some v, s)
    | none ↦ elim found [ none ↦ (none, s) | some v ↦ (some v, remember k v t s) ]
  ]

  -- A query whose answer is always kept.
  unfoldable pub read_all : K → ℕ → V → Tracked → V × Tracked
  read_all k t found s = elim (cache.get k s.cached) [
    | some v ↦ (v, s)
    | none ↦ (found, remember k found t s)
  ]

  unfoldable pub delete_keys : List K → cache.Store → cache.Store
  delete_keys [] s = s
  delete_keys (k ∷ ks) s = delete_keys ks (cache.del k s)

  -- `clearCache`
  unfoldable pub clear_cache : Tracked → Tracked
  unfolding delete_keys
  clear_cache s = record { cached = delete_keys s.keys s.cached; keys = [] }

  module _ (key_eq : Discrete K) where
    abbrev pub Holds : List K → K → Type 0
    Holds [] j = ⊥
    Holds (k ∷ ks) j = (k ≡ j) ⊎ Holds ks j

    -- Every entry of the cache is in the set and is what `answer` says.
    pub record IsFresh (answer : K → Option V) (s : Tracked) : Type 0 where
      pub tracked : (k : K) (v : V) → cache.get k s.cached ≡ some v → Holds s.keys k
      pub current : (k : K) (v : V) → cache.get k s.cached ≡ some v → answer k ≡ some v

    get-delete_keys-none :
        (ks : List K) (j : K) (s : cache.Store)
        → cache.get j s ≡ none
        → cache.get j (delete_keys ks s) ≡ none
    unfolding delete_keys
    get-delete_keys-none [] j s h = h
    get-delete_keys-none (k ∷ ks) j s h =
        get-delete_keys-none ks j (cache.del k s) (elim (key_eq k j) [
          | yes same ↦ ap (λ x. cache.get x (cache.del k s)) (sym same) ∙ cache.get-del_self k s
          | no other ↦ cache.get-del_ne k j s other ∙ h
        ])

    get-delete_keys :
        (ks : List K) (j : K) (s : cache.Store) → Holds ks j → cache.get j (delete_keys ks s) ≡ none
    unfolding delete_keys
    get-delete_keys [] j s h = elim h [ ]
    get-delete_keys (k ∷ ks) j s (inl same) =
        get-delete_keys-none ks j (cache.del k s)
          (ap (λ x. cache.get x (cache.del k s)) (sym same) ∙ cache.get-del_self k s)
    get-delete_keys (k ∷ ks) j s (inr later) = get-delete_keys ks j (cache.del k s) later

    -- After a write the cache is empty, so it is right about any database.
    pub clear_cache-IsFresh :
        (answer next : K → Option V) (s : Tracked) → IsFresh answer s → IsFresh next (clear_cache s)
    unfolding clear_cache
    clear_cache-IsFresh answer next s h = record {
      tracked = λ k v e. absurd (gone k v e);
      current = λ k v e. absurd (gone k v e);
    }
      where
        gone : (k : K) (v : V) → cache.get k (delete_keys s.keys s.cached) ≡ some v → ⊥
        gone k v e = elim (Option-cases (cache.get k s.cached)) [
          | inl miss ↦ cc (get-delete_keys-none s.keys k s.cached miss)
          | inr (w, hit) ↦ cc (get-delete_keys s.keys k s.cached (h.tracked k w hit))
        ]

    pub remember-IsFresh :
        (answer : K → Option V) (k : K) (v : V) (t : ℕ) (s : Tracked)
        → answer k ≡ some v
        → IsFresh answer s
        → IsFresh answer (remember k v t s)
    remember-IsFresh answer k v t s a h = record {
      tracked = λ j w e. elim (key_eq k j) [
        | yes same ↦ inl same
        | no other ↦ inr (h.tracked j w (sym (cache.get-set_ne k j v t s.cached other) ∙ e))
      ];
      current = λ j w e. elim (key_eq k j) [
        | yes same ↦ cc (cache.get-set_self k v t s.cached)
        | no other ↦ h.current j w (sym (cache.get-set_ne k j v t s.cached other) ∙ e)
      ];
    }

    -- A query through a fresh cache answers as the database does, and keeps the cache fresh.
    pub read_one-IsFresh :
        (answer : K → Option V) (k : K) (t : ℕ) (s : Tracked)
        → IsFresh answer s
        → ((read_one k t (answer k) s).0 ≡ answer k) × IsFresh answer (read_one k t (answer k) s).1
    unfolding read_one
    read_one-IsFresh answer k t s h = elim (Option-cases (cache.get k s.cached)) [
      | inl miss ↦ elim (Option-cases (answer k)) [
        | inl absent ↦ rw (miss, absent, read_one) (refl, h)
        | inr (v, found) ↦
            rw (miss, found, read_one) (refl, remember-IsFresh answer k v t s found h)
      ]
      | inr (v, hit) ↦ rw (hit, read_one) (sym (h.current k v hit), h)
    ]

    pub read_all-IsFresh :
        (answer : K → Option V) (k : K) (t : ℕ) (found : V) (s : Tracked)
        → answer k ≡ some found
        → IsFresh answer s
        → ((read_all k t found s).0 ≡ found) × IsFresh answer (read_all k t found s).1
    unfolding read_all
    read_all-IsFresh answer k t found s a h = elim (Option-cases (cache.get k s.cached)) [
      | inl miss ↦ rw (miss, read_all) (refl, remember-IsFresh answer k found t s a h)
      | inr (v, hit) ↦ rw (hit, read_all) (cc (h.current k v hit), h)
    ]

-- ===== src/Platform/Versioned.antt =====
-- `save` of a document that was loaded before, under Mongoose's option `optimisticConcurrency`: only
-- what was changed is written, the filter asks for the version that was loaded, and the write counts
-- the version up. A document that was not changed is not written, but looked up by the same filter.
use task_manager_api.Prelude.{ℕ, ◌≡◌, Bool, true, false, ◌==◌, is_some, Option, none, some}
use task_manager_api.Platform.Collection.{Collection}

module _ {Doc : Type 0} (db : Collection Doc) (version : Doc → ℕ) (count_up : Doc → Doc) where
  -- There is a document, and its version is that of d.
  abbrev pub has_version : Doc → Option Doc → Bool
  has_version d none = false
  has_version d (some e) = version e == version d

  pub record Versioned : Type 0 where
    pub is_modified : Doc → Doc → Bool
    -- The document as loaded and the changes made to it; `false` is a `VersionError`.
    pub save : ℕ → Doc → (Doc → Doc) → db.Store → Bool × db.Store
    pub modified_not_same : (d : Doc) → is_modified d d ≡ false
    pub unmodified_same : (d e : Doc) → is_modified d e ≡ false → d ≡ e
    pub save_unmodified :
        (i : ℕ) (d : Doc) (u : Doc → Doc) (s : db.Store)
        → is_modified d (u d) ≡ false
        → save i d u s ≡ (has_version d (db.find_by_id i s), s)
    pub save_returns :
        (i : ℕ) (d : Doc) (u : Doc → Doc) (s : db.Store)
        → is_modified d (u d) ≡ true
        → (save i d u s).0
          ≡ is_some
              (db.find_one_and_update i (λ e. version e == version d) (λ e. count_up (u e)) s).0
    pub save_writes :
        (i : ℕ) (d : Doc) (u : Doc → Doc) (s : db.Store)
        → is_modified d (u d) ≡ true
        → (save i d u s).1
          ≡ (db.find_one_and_update i (λ e. version e == version d) (λ e. count_up (u e)) s).1

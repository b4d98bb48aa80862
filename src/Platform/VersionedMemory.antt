-- ===== src/Platform/VersionedMemory.antt =====
-- Saves of versioned documents in memory, at which the examples run: the documents are compared by a
-- decision.
use task_manager_api.Prelude.{ℕ, ◌≡◌, refl, Bool, true, false, is_some, ◌==◌, if◌then◌else◌}
use task_manager_api.Platform.Collection.{Collection}
use task_manager_api.Platform.Versioned.{Versioned, has_version}

module _ {Doc : Type 0} (doc_eq : Discrete Doc) where
  abbrev pub differ : Doc → Doc → Bool
  differ d e = elim (doc_eq d e) [ yes _ ↦ false | no _ ↦ true ]

  pub not_differ : (d : Doc) → differ d d ≡ false
  not_differ d = elim (doc_eq d d) as (λ x. (elim x [ yes _ ↦ false | no _ ↦ true ]) ≡ false) [
    | yes _ ↦ refl
    | no other ↦ absurd (other refl)
  ]

  pub differ-false : (d e : Doc) → differ d e ≡ false → d ≡ e
  differ-false d e =
      elim (doc_eq d e) as (λ x. (elim x [ yes _ ↦ false | no _ ↦ true ]) ≡ false → d ≡ e) [
        | yes same ↦ λ h. same
        | no _ ↦ λ h. cc
      ]

  module _ (db : Collection Doc) (version : Doc → ℕ) (count_up : Doc → Doc) where
    abbrev pub write : ℕ → Doc → (Doc → Doc) → db.Store → Bool × db.Store
    write i d u s =
        let (found, s') =
          db.find_one_and_update i (λ e. version e == version d) (λ e. count_up (u e)) s in
        (is_some found, s')

    abbrev pub memory : Versioned db version count_up
    memory = record {
      is_modified = differ;
      save = λ i d u s.
          if differ d (u d)
          then write i d u s
          else (has_version db version count_up d (db.find_by_id i s), s);
      modified_not_same = not_differ;
      unmodified_same = differ-false;
      save_unmodified = λ i d u s h. rw h refl;
      save_returns = λ i d u s h. rw h refl;
      save_writes = λ i d u s h. rw h refl;
    }

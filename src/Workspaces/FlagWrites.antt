-- ===== src/Workspaces/FlagWrites.antt =====
-- A write of one configuration of src/workspace/infrastructure/persistence/repositories/
-- workspace-feature-flags.repository.ts, by what the lookups give after it.
use task_manager_api.Prelude.{
  ℕ, ◌≡◌, ◌≢◌, sym, ap, ◌∙◌, ◌⊎◌, inl, inr, true, Option, some, arith, Bool-cases, ◌==◌,
  if◌then◌else◌, is_some,
}
use task_manager_api.Platform.Collection.{Collection}
use task_manager_api.Platform.Unique.{find_one_alone, find_one_same, IsAlone}
use task_manager_api.Workspaces.Flags.{WorkspaceFeatureFlag, WorkspaceFeatureFlags, is_for}

module _ (db : Collection WorkspaceFeatureFlags) where
  abbrev pub config : ℕ → db.Store → Option (ℕ × WorkspaceFeatureFlags)
  config w s = db.find_one (is_for w) s

  -- One configuration for a workspace, and in it a value of every flag.
  pub record IsConfigured (s : db.Store) : Type 0 where
    pub alone : (w : ℕ) → IsAlone db (is_for w) s
    pub complete :
        (i : ℕ) (c : WorkspaceFeatureFlags)
        → db.find_by_id i s ≡ some c
        → (f : WorkspaceFeatureFlag) → is_some (c.flags f) ≡ true

  -- A store in which the configuration of one workspace was written, and no other document.
  pub record Writes (w id : ℕ) (c : WorkspaceFeatureFlags) (s t : db.Store) : Type 0 where
    pub for_workspace : is_for w c ≡ true
    pub written : (j : ℕ) → db.find_by_id j t ≡ (if id == j then some c else db.find_by_id j s)
    pub only :
        (j : ℕ) (e : WorkspaceFeatureFlags)
        → db.find_by_id j s ≡ some e
        → is_for w e ≡ true
        → j ≡ id
    pub was_for : (e : WorkspaceFeatureFlags) → db.find_by_id id s ≡ some e → is_for w e ≡ true

  module _ (w id : ℕ) (c : WorkspaceFeatureFlags) (s t : db.Store) (write : Writes w id c s t)
      (h : IsConfigured s) where
    here : db.find_by_id id t ≡ some c
    here = write.written id ∙ ground arith

    -- What is found after the write is the configuration written, or was there before.
    written_or_before :
        (j : ℕ) (e : WorkspaceFeatureFlags)
        → db.find_by_id j t ≡ some e
        → ((id ≡ j) × (c ≡ e)) ⊎ (db.find_by_id j s ≡ some e)
    written_or_before j e found = elim (Bool-cases (id == j)) [
      | inl same ↦ inl (ground arith, ground (arith, write.written j))
      | inr other ↦ inr (ground (arith, write.written j))
    ]

    IsAlone-after : (v : ℕ) → IsAlone db (is_for v) t
    IsAlone-after v i j d e found_d found_e for_d for_e = elim (written_or_before i d found_d) [
      | inl (at_i, same_d) ↦ elim (written_or_before j e found_e) [
        | inl (at_j, same_e) ↦ sym at_i ∙ at_j
        | inr old_e ↦
            sym at_i
            ∙ sym (write.only j e old_e (ground (arith, write.for_workspace, same_d, for_d, for_e)))
      ]
      | inr old_d ↦ elim (written_or_before j e found_e) [
        | inl (at_j, same_e) ↦
            write.only i d old_d (ground (arith, write.for_workspace, same_e, for_d, for_e)) ∙ at_j
        | inr old_e ↦ h.alone v i j d e old_d old_e for_d for_e
      ]
    ]

    pub config_written : config w t ≡ some (id, c)
    config_written =
        find_one_alone db (is_for w) t id c here write.for_workspace
          (λ j e found for_e. IsAlone-after w j id e c found here for_e write.for_workspace)

    pub config_other : (v : ℕ) → v ≢ w → config v t ≡ config v s
    config_other v other =
        find_one_same db (is_for v) s t (IsAlone-after v)
          (λ j e for_e found. elim (Bool-cases (id == j)) [
            | inl same ↦
                let at : id ≡ j = ground arith in
                absurd (other (ground (arith, write.was_for e (rw at found))))
            | inr apart ↦ write.written j ∙ rw apart found
          ])
          (λ j e for_e found. elim (written_or_before j e found) [
            | inl (at_j, same_e) ↦
                absurd (other (ground (arith, write.for_workspace, same_e, for_e)))
            | inr old ↦ old
          ])

    pub IsConfigured-after :
        ((f : WorkspaceFeatureFlag) → is_some (c.flags f) ≡ true) → IsConfigured t
    IsConfigured-after whole = record {
      alone = IsAlone-after;
      complete = λ i e found f. elim (written_or_before i e found) [
        | inl (at_i, same_e) ↦ ap (λ d. is_some (d.flags f)) (sym same_e) ∙ whole f
        | inr old ↦ h.complete i e old f
      ];
    }

-- ===== src/Tasks/Saves.antt =====
-- `save` of a loaded task, as the repository of src/task calls it: it succeeds where the version in
-- the collection is the one that was loaded, and then the edit is there with the next version.
use task_manager_api.Prelude.{
  ℕ, ◌≡◌, refl, ◌<◌, ap, ◌∙◌, inl, inr, true, false, none, some, arith, Bool-cases, is_some,
  if◌then◌else◌, ◌==◌,
}
use task_manager_api.Tasks.{Task, next_version}
use task_manager_api.Tasks.Repository.{save}
use task_manager_api.Tasks.World.{TaskEnv}

module _ (env : TaskEnv) where
  -- The save of an edit asks for the version that was loaded.
  pub save-current :
      (id : ℕ) (d e : Task) (u : Task → Task) (s : env.tasks.Store)
      → env.docs.is_modified d (u d) ≡ true
      → env.tasks.find_by_id id s ≡ some e
      → e.version ≡ d.version
      → (save env.tasks env.docs id d u s).0 ≡ some (next_version (u d))
  unfolding save
  save-current id d e u s changed found current =
      let returned =
        env.docs.save_returns id d u s changed
        ∙ ap is_some (
            env.tasks.update_returns id (λ x. x.version == d.version) (λ x. next_version (u x))
              s) in
      let matches : (e.version == d.version) ≡ true = ground arith in
      rw (returned, changed, found, matches, save, is_some) refl

  -- A stale document cannot be saved, changed or not.
  pub save-stale :
      (id : ℕ) (d e : Task) (u : Task → Task) (s : env.tasks.Store)
      → env.tasks.find_by_id id s ≡ some e
      → d.version < e.version
      → (save env.tasks env.docs id d u s).0 ≡ none
  unfolding save
  save-stale id d e u s found later =
      let differs : (e.version == d.version) ≡ false = ground arith in
      elim (Bool-cases (env.docs.is_modified d (u d))) [
        | inr unchanged ↦
            let looked = ap (λ x. x.0) (env.docs.save_unmodified id d u s unchanged) in
            rw (looked, found, save) (rw differs refl)
        | inl changed ↦
            let returned =
              env.docs.save_returns id d u s changed
              ∙ ap is_some (
                  env.tasks.update_returns id (λ x. x.version == d.version)
                    (λ x. next_version (u x)) s) in
            rw (returned, changed, found, differs, save, is_some) refl
      ]

  pub find-save :
      (id j : ℕ) (d e : Task) (u : Task → Task) (s : env.tasks.Store)
      → env.docs.is_modified d (u d) ≡ true
      → env.tasks.find_by_id id s ≡ some e
      → e.version ≡ d.version
      → env.tasks.find_by_id j (save env.tasks env.docs id d u s).1
        ≡ (if id == j then some (next_version (u e)) else env.tasks.find_by_id j s)
  unfolding save
  find-save id j d e u s changed found current =
      let law =
        ap (env.tasks.find_by_id j) (env.docs.save_writes id d u s changed)
        ∙ env.tasks.find-update id j (λ x. x.version == d.version) (λ x. next_version (u x)) s in
      let matches : (e.version == d.version) ≡ true = ground arith in
      law ∙ elim (Bool-cases (id == j)) [
        | inr other ↦ rw other refl
        | inl this ↦ let at : id ≡ j = ground arith in rw (this, ← at, found, matches) refl
      ]

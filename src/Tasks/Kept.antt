-- ===== src/Tasks/Kept.antt =====
-- What stays true of a task's document through any run of the commands of
-- src/task/application/commands: a condition that every edit, with the version counted up, keeps.
use task_manager_api.Prelude.{
  ℕ, ◌≡◌, refl, ◌∙◌, inl, inr, true, some, [], ◌∷◌, arith, Bool-cases, ◌==◌,
}
use task_manager_api.Tasks.{Task, next_version, UpdateTaskDto, Field}
use task_manager_api.Tasks.Update.{assign, assign_all}
use task_manager_api.Tasks.Repository.{
  removed, with_attachment, without_attachment, with_comment, with_assignees,
}
use task_manager_api.Tasks.World.{TaskEnv, TaskWorld}
use task_manager_api.Tasks.Steps.{
  Edit, edited, assigns, removes, attaches, detaches, comments, gives_to, after, Run, here, step,
  Reaches, same, inserted, saved,
}
use task_manager_api.Tasks.Reaches.{after-Reaches}

version-assign : (f : Field) (t : Task) → (assign f t).version ≡ t.version
unfolding assign
version-assign f t = ground arith

version-assign_all : (dto : UpdateTaskDto) (t : Task) → (assign_all dto t).version ≡ t.version
unfolding assign_all
version-assign_all [] t = refl
version-assign_all (f ∷ dto) t = version-assign_all dto (assign f t) ∙ version-assign f t

-- No edit counts the version up by itself.
pub version-edited : (e : Edit) (t : Task) → (edited e t).version ≡ t.version
unfolding removed with_attachment without_attachment with_comment with_assignees
version-edited (assigns dto) t = version-assign_all dto t
version-edited (removes now) t = refl
version-edited (attaches a) t = refl
version-edited (detaches id) t = refl
version-edited (comments c) t = refl
version-edited (gives_to users) t = refl

deleted-assign : (f : Field) (t : Task) → (assign f t).is_deleted ≡ t.is_deleted
unfolding assign
deleted-assign f t = ground arith

deleted-assign_all : (dto : UpdateTaskDto) (t : Task) → (assign_all dto t).is_deleted ≡ t.is_deleted
unfolding assign_all
deleted-assign_all [] t = refl
deleted-assign_all (f ∷ dto) t = deleted-assign_all dto (assign f t) ∙ deleted-assign f t

-- No edit brings a deleted task back.
pub deleted-edited : (e : Edit) (t : Task) → t.is_deleted ≡ true → (edited e t).is_deleted ≡ true
unfolding removed with_attachment without_attachment with_comment with_assignees
deleted-edited (assigns dto) t h = deleted-assign_all dto t ∙ h
deleted-edited (removes now) t h = refl
deleted-edited (attaches a) t h = h
deleted-edited (detaches id) t h = h
deleted-edited (comments c) t h = h
deleted-edited (gives_to users) t h = h

module _ (env : TaskEnv) (P : Task → Type 0)
    (keeps : (e : Edit) (t : Task) → P t → P (next_version (edited e t))) where
  abbrev pub Holds : ℕ → env.tasks.Store → Type 0
  Holds id s = (t : Task) × (env.tasks.find_by_id id s ≡ some t) × P t

  Holds-save :
      (id i : ℕ) (d : Task) (e : Edit) (s : env.tasks.Store)
      → Holds id s
      → Holds id (env.docs.save i d (edited e) s).1
  Holds-save id i d e s (t, found, h) = elim (Bool-cases (env.docs.is_modified d (edited e d))) [
    | inr unchanged ↦ rw (env.docs.save_unmodified i d (edited e) s unchanged) (t, found, h)
    | inl changed ↦ rw (env.docs.save_writes i d (edited e) s changed) (
        let law =
          env.tasks.find-update i id (λ x. x.version == d.version) (λ x. next_version (edited e x))
            s in
        elim (Bool-cases (i == id)) [
          | inr other ↦ (t, law ∙ rw other found, h)
          | inl this ↦ elim (Bool-cases (t.version == d.version)) [
            | inr stale ↦ (t, law ∙ rw (this, found, stale) refl, h)
            | inl current ↦
                (next_version (edited e t), law ∙ rw (this, found, current) refl, keeps e t h)
          ]
        ])
  ]

  Holds-Reaches : (id : ℕ) (s t : env.tasks.Store) → Reaches env s t → Holds id s → Holds id t
  Holds-Reaches id s _ same h = h
  Holds-Reaches id s _ (inserted i d free) (t, found, h) = (
    t,
    env.tasks.find-insert i id d s free ∙ elim (Bool-cases (i == id)) [
      | inl this ↦ absurd (ground (arith, free, found))
      | inr other ↦ rw other found
    ],
    h,
  )
  Holds-Reaches id s _ (saved i d e) h = Holds-save id i d e s h

  pub Holds-Run : (id : ℕ) (w v : TaskWorld env) → Run env w v → Holds id w.tasks → Holds id v.tasks
  Holds-Run id w _ here h = h
  Holds-Run id w _ (step {v} o allowed run) h =
      Holds-Reaches id v.tasks (after env o v).tasks (after-Reaches env o v allowed)
        (Holds-Run id w v run h)

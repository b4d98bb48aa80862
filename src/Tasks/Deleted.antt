-- ===== src/Tasks/Deleted.antt =====
-- A task after src/task/application/commands/delete-task/delete-task.handler.ts: no command finds it
-- again.
use task_manager_api.Prelude.{
  ℕ, ◌≡◌, refl, ap, inl, inr, true, Option, none, some, List, String, arith, Bool-cases,
  Option-cases, ok, err, Result-cases, not_found,
}
use task_manager_api.Tasks.{Task, next_version, UpdateTaskDto}
use task_manager_api.Tasks.Repository.{
  File, is_live_in, live_in, removed, find_authorized_task, find_by_id, save, save_or_fail,
}
use task_manager_api.Tasks.World.{TaskEnv, Seen, TaskWorld, clear_lists, with_activity, audit_task}
use task_manager_api.Tasks.Update.{category_of, load, prepare, update_task}
use task_manager_api.Tasks.Commands.{
  delete_task, assign_task, create_comment, upload_attachment, delete_attachment,
}
use task_manager_api.Tasks.Steps.{Run}
use task_manager_api.Tasks.Kept.{deleted-edited, Holds, Holds-Run}
use task_manager_api.Tasks.Saves.{find-save}
use task_manager_api.Tasks.Versions.{found_live}

abbrev pub IsGone : Task → Type 0
IsGone t = t.is_deleted ≡ true

module _ (env : TaskEnv) where
  removed_modified :
      (now ws : ℕ) (t : Task)
      → is_live_in ws t ≡ true
      → env.docs.is_modified t (removed now t) ≡ true
  unfolding is_live_in removed
  removed_modified now ws t live = elim (Bool-cases (env.docs.is_modified t (removed now t))) [
    | inl changed ↦ changed
    | inr unchanged ↦ absurd (
        ground (
          arith,
          live,
          ap (λ d. d.is_deleted) (env.docs.unmodified_same t (removed now t) unchanged),
        ))
  ]

  IsGone-delete_task :
      (seen : Seen) (id user ws now : ℕ) (m : String) (w : TaskWorld env)
      → (delete_task env seen id user ws now w).0 ≡ ok m
      → Holds env IsGone
          (λ e t h. deleted-edited e t h)
          id
          (delete_task env seen id user ws now w).1.tasks
  unfolding delete_task find_authorized_task save_or_fail removed clear_lists with_activity
      audit_task
  IsGone-delete_task seen id user ws now m w h =
      elim (Option-cases (live_in ws (env.tasks.find_by_id id w.tasks))) [
        | inl absent ↦ absurd (ground (arith, absent, h))
        | inr (t, found) ↦
            let (loaded, live) = found_live env ws (env.tasks.find_by_id id w.tasks) t found in
            let stored =
              find-save env id id t t (removed now) w.tasks (removed_modified now ws t live) loaded
                refl in
            let gone : Holds env IsGone (λ e d g. deleted-edited e d g) id
                (save env.tasks env.docs id t (removed now) w.tasks).1 =
              (next_version (removed now t), ground (arith, stored), refl) in
            elim (Result-cases (save_or_fail env.tasks env.docs id t (removed now) w.tasks).0) [
              | inr (e, stale) ↦ rw (found, stale, delete_task, find_authorized_task) gone
              | inl (t', done) ↦ rw (found, done, delete_task, find_authorized_task) gone
            ]
      ]

  not_live :
      (ws : ℕ) (o : Option Task) (t : Task) → o ≡ some t → t.is_deleted ≡ true → live_in ws o ≡ none
  unfolding live_in is_live_in
  not_live ws o t found gone = ground (arith, found, gone)

  not_found_in :
      (ws id : ℕ) (s : env.tasks.Store)
      → live_in ws (env.tasks.find_by_id id s) ≡ none
      → find_authorized_task env.tasks env.docs id ws s ≡ err not_found
  unfolding find_authorized_task
  not_found_in ws id s gone = rw (gone, find_authorized_task) refl

  prepare_fails :
      (seen : Seen) (dto : UpdateTaskDto) (id user : ℕ) (role : String) (ws v : ℕ)
      (w : TaskWorld env)
      → live_in ws (env.tasks.find_by_id id w.tasks) ≡ none
      → prepare env seen dto id user role ws v w ≡ err not_found
  unfolding prepare load
  prepare_fails seen dto id user role ws v w gone =
      let not_loaded : load env seen id ws v w ≡ err not_found =
        rw (not_found_in ws id w.tasks gone, load) refl in
      elim (Option-cases (category_of dto)) [
        | inl plain ↦ rw (plain, prepare) not_loaded
        | inr (c, given) ↦ elim (Bool-cases (seen.category_for_role c user role)) [
          | inl known ↦ rw (given, known, prepare) not_loaded
          | inr unknown ↦ rw (given, unknown, prepare) refl
        ]
      ]

  -- No command finds the task, in any workspace.
  pub record IsUnreachable (id : ℕ) (w : TaskWorld env) : Type 0 where
    pub update_fails :
        (seen : Seen) (dto : UpdateTaskDto) (user : ℕ) (role : String) (ws v : ℕ)
        → update_task env seen dto id user role ws v w ≡ (err not_found, w)
    pub delete_fails :
        (seen : Seen) (user ws now : ℕ) → delete_task env seen id user ws now w ≡ (err not_found, w)
    pub assign_fails :
        (seen : Seen) (user ws : ℕ) (users : List ℕ)
        → assign_task env seen id user ws users w ≡ (err not_found, w)
    pub comment_fails :
        (body : String) (user ws now : ℕ)
        → create_comment env id body user ws now w ≡ (err not_found, w)
    pub upload_fails :
        (file : File) (user ws fresh : ℕ)
        → upload_attachment env id file user ws fresh w ≡ (err not_found, w)
    pub detach_fails :
        (attachment_id user ws : ℕ)
        → delete_attachment env id attachment_id user ws w ≡ (err not_found, w)

  unreachable :
      (id : ℕ) (w : TaskWorld env)
      → ((ws : ℕ) → live_in ws (env.tasks.find_by_id id w.tasks) ≡ none)
      → IsUnreachable id w
  unfolding update_task prepare load delete_task assign_task find_by_id create_comment
      upload_attachment delete_attachment
  unreachable id w gone = record {
    update_fails = λ seen dto user role ws v.
        rw (prepare_fails seen dto id user role ws v w (gone ws), update_task) refl;
    delete_fails = λ seen user ws now. rw (not_found_in ws id w.tasks (gone ws), delete_task) refl;
    assign_fails = λ seen user ws users. rw (gone ws, assign_task, find_by_id) refl;
    comment_fails =
        λ body user ws now. rw (not_found_in ws id w.tasks (gone ws), create_comment) refl;
    upload_fails =
        λ file user ws fresh. rw (not_found_in ws id w.tasks (gone ws), upload_attachment) refl;
    detach_fails =
        λ attachment_id user ws. rw (not_found_in ws id w.tasks (gone ws), delete_attachment) refl;
  }

  -- After a deletion that answers with success, and after any further commands, every command on the
  -- task (updating, deleting, assigning, commenting, uploading or deleting an attachment) answers
  -- `Not Found` and changes nothing, whoever sends it and whatever workspace it names.
  pub delete_task-IsUnreachable :
      (seen : Seen) (id user ws now : ℕ) (m : String) (w v : TaskWorld env)
      → (delete_task env seen id user ws now w).0 ≡ ok m
      → Run env (delete_task env seen id user ws now w).1 v
      → IsUnreachable id v
  delete_task-IsUnreachable seen id user ws now m w v done run =
      let (t, found, gone) =
        Holds-Run env IsGone (λ e d h. deleted-edited e d h) id
          (delete_task env seen id user ws now w).1 v run
          (IsGone-delete_task seen id user ws now m w done) in
      unreachable id v (λ ws'. not_live ws' (env.tasks.find_by_id id v.tasks) t found gone)

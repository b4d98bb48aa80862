-- ===== src/Tasks/Versions.antt =====
-- Updates of one task that race: src/task/application/commands/update-task/update-task.handler.ts
-- under the versions of src/task/Schema/task.schema.ts.
use task_manager_api.Prelude.{
  not, ◌&&◌, ℕ, ◌≡◌, refl, ◌<◌, ap, ◌∙◌, inl, inr, true, Option, none, some, ◌∷◌, String, arith,
  Bool-cases, Option-cases, if◌then◌else◌, ◌==◌, Result, ok, err, precondition_failed,
}
use task_manager_api.Tasks.{is_done, Task, next_version, UpdateTaskDto}
use task_manager_api.Tasks.Repository.{is_live_in, live_in, find_authorized_task, save}
use task_manager_api.Tasks.World.{
  TaskEnv, Seen, TaskWorld, with_activity, audit_task, clear_lists, emit,
}
use task_manager_api.Tasks.Update.{
  assign_all, completes, load, prepare, commit, update_task, record_update,
}
use task_manager_api.Tasks.Steps.{Edit, edited, assigns, Run}
use task_manager_api.Tasks.Given.{with_given, assign_all_lem, is_given_done, asks_done_lem}
use task_manager_api.Tasks.Reaches.{tasks-record_update}
use task_manager_api.Tasks.Saves.{save-current, save-stale, find-save}
use task_manager_api.Tasks.Kept.{version-edited, Holds-Run}

module _ (env : TaskEnv) where
  -- What the guards have checked.
  pub record IsReady (id ws expected_version : ℕ) (t : Task) (w : TaskWorld env) : Type 0 where
    pub loaded : env.tasks.find_by_id id w.tasks ≡ some t
    pub live : is_live_in ws t ≡ true
    pub version_matches : t.version ≡ expected_version

  pub found_live :
      (ws : ℕ) (o : Option Task) (t : Task)
      → live_in ws o ≡ some t
      → (o ≡ some t) × (is_live_in ws t ≡ true)
  unfolding live_in
  found_live ws none t h = cc
  found_live ws (some d) t h = elim (Bool-cases (is_live_in ws d)) [
    | inl live ↦ (ground (arith, live, h), ground (arith, live, h))
    | inr dead ↦ absurd (ground (arith, dead, h))
  ]

  load-IsReady :
      (seen : Seen) (id ws v : ℕ) (t : Task) (w : TaskWorld env)
      → load env seen id ws v w ≡ ok t
      → IsReady id ws v t w
  unfolding load find_authorized_task
  load-IsReady seen id ws v t w h =
      elim (Option-cases (live_in ws (env.tasks.find_by_id id w.tasks))) [
        | inl absent ↦ absurd (ground (arith, absent, h))
        | inr (d, found) ↦
            let same : d ≡ t = ground (arith, found, h) in
            let (loaded, live) = found_live ws (env.tasks.find_by_id id w.tasks) d found in
            record {
              loaded = loaded ∙ ap some same;
              live = ground (arith, live, same);
              version_matches = ground (arith, found, h);
            }
      ]

  pub prepare-IsReady :
      (seen : Seen) (dto : UpdateTaskDto) (id user : ℕ) (role : String) (ws v : ℕ) (t : Task)
      (w : TaskWorld env)
      → prepare env seen dto id user role ws v w ≡ ok t
      → IsReady id ws v t w
  unfolding prepare
  prepare-IsReady seen dto id user role ws v t w h =
      load-IsReady seen id ws v t w (ground (arith, h))

  published-record_update :
      (dto : UpdateTaskDto) (t : Task) (id user ws : ℕ) (w : TaskWorld env)
      → (record_update env dto t id user ws w).published ≡ w.published
  unfolding record_update with_activity audit_task
  published-record_update dto t id user ws w = ground arith

  -- A commit whose save succeeds, and one whose save does not.
  record Commits (dto : UpdateTaskDto) (id user ws : ℕ) (t : Task) (w : TaskWorld env)
      : Type 0 where
    returns : (commit env dto id user ws t w).0 ≡ ok (next_version (assign_all dto t))
    stores :
        (commit env dto id user ws t w).1.tasks
        ≡ (save env.tasks env.docs id t (assign_all dto) w.tasks).1
    announces :
        (commit env dto id user ws t w).1.published
        ≡ (if completes dto t then (id, t.owner) ∷ w.published else w.published)

  commit-current :
      (dto : UpdateTaskDto) (id user ws : ℕ) (t e : Task) (w : TaskWorld env)
      → env.docs.is_modified t (assign_all dto t) ≡ true
      → env.tasks.find_by_id id w.tasks ≡ some e
      → e.version ≡ t.version
      → Commits dto id user ws t w
  unfolding commit clear_lists emit
  commit-current dto id user ws t e w changed found current =
      let done = save-current env id t e (assign_all dto) w.tasks changed found current in
      let next = record w { tasks = (save env.tasks env.docs id t (assign_all dto) w.tasks).1 } in
      record {
        returns = rw (done, commit) refl;
        stores = rw (done, commit, tasks-record_update env dto t id user ws next) refl;
        announces = rw (done, commit, published-record_update dto t id user ws next) refl;
      }

  commit-stale :
      (dto : UpdateTaskDto) (id user ws : ℕ) (t e : Task) (w : TaskWorld env)
      → env.tasks.find_by_id id w.tasks ≡ some e
      → t.version < e.version
      → commit env dto id user ws t w ≡ (err precondition_failed, w)
  unfolding commit
  commit-stale dto id user ws t e w found later =
      rw (save-stale env id t e (assign_all dto) w.tasks found later, commit) refl

  abbrev pub IsLater : ℕ → Task → Type 0
  IsLater v t = v < t.version

  stays-IsLater :
      (v : ℕ) (e : Edit) (t : Task) → IsLater v t → IsLater v (next_version (edited e t))
  stays-IsLater v e t h = omega (arith, version-edited e t)

  -- Two updates of one task that were both checked against the same documents, the first with a
  -- change: the first to commit succeeds, and after it, whatever commands run in between, the other
  -- fails with `Precondition Failed` (412, where the README says 409) and changes
  -- nothing. No update is lost.
  pub commit-commit :
      (seen seen' : Seen) (dto dto' : UpdateTaskDto) (id user user' : ℕ) (role role' : String)
      (ws ws' v v' : ℕ) (t t' : Task) (w : TaskWorld env)
      → prepare env seen dto id user role ws v w ≡ ok t
      → prepare env seen' dto' id user' role' ws' v' w ≡ ok t'
      → env.docs.is_modified t (assign_all dto t) ≡ true
      → (x : TaskWorld env) → Run env (commit env dto id user ws t w).1 x
      → ((commit env dto id user ws t w).0 ≡ ok (next_version (assign_all dto t)))
        × (commit env dto' id user' ws' t' x ≡ (err precondition_failed, x))
  commit-commit seen seen' dto dto' id user user' role role' ws ws' v v' t t' w first second changed
        x run =
      let ready = prepare-IsReady seen dto id user role ws v t w first in
      let other = prepare-IsReady seen' dto' id user' role' ws' v' t' w second in
      let alike : t ≡ t' = ground (arith, ready.loaded, other.loaded) in
      let commits = commit-current dto id user ws t t w changed ready.loaded refl in
      let stored =
        ap (env.tasks.find_by_id id) commits.stores
        ∙ find-save env id id t t (assign_all dto) w.tasks changed ready.loaded refl in
      let later : t'.version < (next_version (assign_all dto t)).version =
        omega (arith, version-edited (assigns dto) t, ap (λ d. d.version) alike) in
      (
        commits.returns,
        let (e, found, h) =
              Holds-Run env (IsLater t'.version) (stays-IsLater t'.version) id
                (commit env dto id user ws t w).1 x run
                (next_version (assign_all dto t), ground (arith, stored), later) in
            commit-stale dto' id user' ws' t' e x found h,
      )

  -- What an update of a task leaves: the document with the given fields and the next version, the
  -- others as they were, and an event on the bus exactly where the task is done by it.
  pub record Updated (dto : UpdateTaskDto) (id : ℕ) (t : Task) (w : TaskWorld env)
      (r : Result Task × TaskWorld env) : Type 0 where
    pub returns : r.0 ≡ ok (next_version (with_given dto t))
    pub stores :
        (j : ℕ)
        → env.tasks.find_by_id j r.1.tasks ≡ (
            if id == j
            then some (next_version (with_given dto t))
            else env.tasks.find_by_id j w.tasks)
    pub announces : r.1.published ≡ (
        if not (is_done t.status) && is_given_done dto
        then (id, t.owner) ∷ w.published
        else w.published)

  -- An update that passes its guards and changes the task succeeds: the task is stored with the given
  -- fields and the next version, no other document changes, and the event of a completed task is
  -- published exactly where the task was not done and the request says that it is.
  pub update_task-Updated :
      (seen : Seen) (dto : UpdateTaskDto) (id user : ℕ) (role : String) (ws v : ℕ) (t : Task)
      (w : TaskWorld env)
      → prepare env seen dto id user role ws v w ≡ ok t
      → env.docs.is_modified t (assign_all dto t) ≡ true
      → Updated dto id t w (update_task env seen dto id user role ws v w)
  unfolding update_task completes
  update_task-Updated seen dto id user role ws v t w passed changed =
      let ready = prepare-IsReady seen dto id user role ws v t w passed in
      let commits = commit-current dto id user ws t t w changed ready.loaded refl in
      rw (passed, update_task)
        (record {
          returns = commits.returns ∙ ap (λ d. ok (next_version d)) (assign_all_lem dto t);
          stores = λ j.
              ap (env.tasks.find_by_id j) commits.stores
              ∙ find-save env id j t t (assign_all dto) w.tasks changed ready.loaded refl
              ∙ ap (λ d. if id == j then some (next_version d) else env.tasks.find_by_id j w.tasks)
                  (assign_all_lem dto t);
          announces =
              commits.announces
              ∙ ap
                  (λ b.
                    if not (is_done t.status) && b
                    then (id, t.owner) ∷ w.published
                    else w.published)
                  (asks_done_lem dto);
        })

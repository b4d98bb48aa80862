-- ===== src/Tasks/Update.antt =====
-- src/task/application/commands/update-task/update-task.handler.ts. The command first loads the task
-- and checks its version, then writes in a transaction; another request can come between the two
-- parts, so they are two functions.
use task_manager_api.Prelude.{
  ℕ, Bool, true, false, ◌&&◌, not, Option, none, some, List, [], ◌∷◌, String, str_eq, ◌==◌, map,
  if◌then◌else◌, Result, ok, err, not_found, precondition_failed, internal_error,
}
use task_manager_api.Audit.{Entry, MetaValue, log}
use task_manager_api.Audit
use task_manager_api.Tasks.{
  Task, TaskStatus, Field, UpdateTaskDto, Activity, ActivityAction, Value, Change, Message,
  status_text, priority_text, is_done, next_version, updated, task_updated,
}
use task_manager_api.Tasks
use task_manager_api.Tasks.Repository.{find_authorized_task, save}
use task_manager_api.Tasks.World.{
  TaskEnv, Seen, TaskWorld, audit_task, with_activity, clear_lists, emit,
}

unfoldable pub key_of : Field → String
key_of (Tasks.title _) = "title"
key_of (Tasks.description _) = "description"
key_of (Tasks.status _) = "status"
key_of (Tasks.priority _) = "priority"
key_of (Tasks.due_date _) = "dueDate"
key_of (Tasks.category _) = "category"
key_of (Tasks.tags _) = "tags"

abbrev value_by {ℓ} : {A : Type ℓ} → (A → Value) → Option A → Value
value_by make none = Tasks.undefined
value_by make (some a) = make a

-- `updateTaskDto[key]`
unfoldable pub new_value : Field → Value
unfolding status_text priority_text
new_value (Tasks.title v) = value_by Tasks.text v
new_value (Tasks.description v) = value_by Tasks.text v
new_value (Tasks.status v) = value_by (λ x. Tasks.text (status_text x)) v
new_value (Tasks.priority v) = value_by (λ x. Tasks.text (priority_text x)) v
new_value (Tasks.due_date v) = value_by Tasks.date v
new_value (Tasks.category v) = value_by Tasks.id v
new_value (Tasks.tags v) = value_by Tasks.texts v

-- `task[key]`
unfoldable pub old_value : Field → Task → Value
unfolding status_text priority_text
old_value (Tasks.title _) t = Tasks.text t.title
old_value (Tasks.description _) t = value_by Tasks.text t.description
old_value (Tasks.status _) t = Tasks.text (status_text t.status)
old_value (Tasks.priority _) t = Tasks.text (priority_text t.priority)
old_value (Tasks.due_date _) t = value_by Tasks.date t.due_date
old_value (Tasks.category _) t = value_by Tasks.id t.category
old_value (Tasks.tags _) t = Tasks.texts t.tags

-- `===`: a date, a category and an array are objects in the document, so they are never the same as
-- what the request holds.
unfoldable pub same_value : Value → Value → Bool
same_value Tasks.undefined Tasks.undefined = true
same_value (Tasks.text a) (Tasks.text b) = str_eq a b
same_value _ _ = false

unfoldable pub changes_of : UpdateTaskDto → Task → List Change
unfolding same_value old_value new_value key_of
changes_of [] t = []
changes_of (f ∷ dto) t =
    let rest = changes_of dto t in
    if same_value (old_value f t) (new_value f)
    then rest
    else record { key = key_of f; old = old_value f t; new = new_value f } ∷ rest

-- One key of `Object.assign(task, definedUpdates)`, and all of them.
unfoldable pub assign : Field → Task → Task
assign (Tasks.title (some v)) t = record t { title = v }
assign (Tasks.description (some v)) t = record t { description = some v }
assign (Tasks.status (some v)) t = record t { status = v }
assign (Tasks.priority (some v)) t = record t { priority = v }
assign (Tasks.due_date (some v)) t = record t { due_date = some v }
assign (Tasks.category (some v)) t = record t { category = some v }
assign (Tasks.tags (some v)) t = record t { tags = v }
assign _ t = t

unfoldable pub assign_all : UpdateTaskDto → Task → Task
unfolding assign
assign_all [] t = t
assign_all (f ∷ dto) t = assign_all dto (assign f t)

-- `updateTaskDto.category` and `updateTaskDto.status === TaskStatus.Done`
unfoldable pub category_of : UpdateTaskDto → Option ℕ
category_of [] = none
category_of (Tasks.category v ∷ dto) = v
category_of (_ ∷ dto) = category_of dto

unfoldable pub asks_done : UpdateTaskDto → Bool
asks_done [] = false
asks_done (Tasks.status (some s) ∷ dto) = is_done s
asks_done (Tasks.status none ∷ dto) = false
asks_done (_ ∷ dto) = asks_done dto

-- `taskCompleted`
unfoldable pub completes : UpdateTaskDto → Task → Bool
unfolding asks_done
completes dto t = not (is_done t.status) && asks_done dto

unfoldable pub keys_of : List Change → List String
keys_of changes = map (λ c. c.key) changes

module _ (env : TaskEnv) where
  -- The task and its version. Without the owner's document, the id of the owner cannot be read.
  unfoldable pub load : Seen → (id workspace expected_version : ℕ) → TaskWorld env → Result Task
  unfolding find_authorized_task
  load seen id workspace expected_version w =
      elim (find_authorized_task env.tasks env.docs id workspace w.tasks) [
        | err e ↦ err e
        | ok t ↦
            if t.version == expected_version
            then (if seen.has_user t.owner then ok t else err internal_error)
            else err precondition_failed
      ]

  -- The guards, up to the transaction.
  unfoldable pub prepare :
      Seen
      → UpdateTaskDto
      → (id user : ℕ) → (role : String) → (workspace expected_version : ℕ) → TaskWorld env
      → Result Task
  unfolding category_of load
  prepare seen dto id user role workspace expected_version w = elim (category_of dto) [
    | none ↦ load seen id workspace expected_version w
    | some c ↦
        if seen.category_for_role c user role
        then load seen id workspace expected_version w
        else err not_found
  ]

  -- The activity and the entries of the trail that the transaction writes.
  unfoldable pub record_update :
      UpdateTaskDto → Task → (id user workspace : ℕ) → TaskWorld env → TaskWorld env
  unfolding completes changes_of keys_of audit_task with_activity
  record_update dto t id user workspace w =
      let w1 =
        if completes dto t
        then audit_task env user "TASK_COMPLETED" "TASK" workspace (("taskId", Audit.id id) ∷ []) w
        else w in
      elim (changes_of dto t) [
        | [] ↦ w1
        | c ∷ cs ↦
            audit_task env user "TASK_UPDATED" "TASK" workspace
              (("taskId", Audit.id id) ∷ ("changedFields", Audit.texts (keys_of (c ∷ cs))) ∷ [])
              (with_activity env id user updated "Task updated" (some (c ∷ cs)) w1)
      ]

  -- The transaction, and what follows it. A failed save rolls everything back.
  unfoldable pub commit :
      UpdateTaskDto → (id user workspace : ℕ) → Task → TaskWorld env → Result Task × TaskWorld env
  unfolding assign_all save record_update completes clear_lists emit
  commit dto id user workspace t w =
      let (saved, tasks) = save env.tasks env.docs id t (assign_all dto) w.tasks in
      elim saved [
        | none ↦ (err precondition_failed, w)
        | some t' ↦
            let w1 = record_update dto t id user workspace (record w { tasks = tasks }) in
            let w2 = record w1 {
              published = if completes dto t then (id, t.owner) ∷ w1.published else w1.published;
            } in
            (ok t', emit env (task_updated (env.id_text t.owner) id) (clear_lists env w2))
      ]

  -- The command with nothing between its two parts.
  unfoldable pub update_task :
      Seen
      → UpdateTaskDto
      → (id user : ℕ) → (role : String) → (workspace expected_version : ℕ) → TaskWorld env
      → Result Task × TaskWorld env
  unfolding prepare commit
  update_task seen dto id user role workspace expected_version w =
      elim (prepare seen dto id user role workspace expected_version w) [
        | err e ↦ (err e, w)
        | ok t ↦ commit dto id user workspace t w
      ]

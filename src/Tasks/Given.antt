-- ===== src/Tasks/Given.antt =====
-- The fields of a task after `Object.assign(task, definedUpdates)` of
-- src/task/application/commands/update-task/update-task.handler.ts, field by field.
use task_manager_api.Prelude.{
  Bool, true, false, arith, ℕ, ◌≡◌, refl, ◌∙◌, Option, none, some, List, [], ◌∷◌, String,
}
use task_manager_api.Platform.Redis.{or_else}
use task_manager_api.Tasks
use task_manager_api.Tasks.{Task, TaskStatus, TaskPriority, Field, UpdateTaskDto, is_done}
use task_manager_api.Tasks.Update.{assign, assign_all, asks_done}

-- The last value that the body has for one of the document's fields, or the field as it was.
abbrev pub last_given : {A : Type 0} → (Field → Option A) → UpdateTaskDto → A → A
last_given pick [] a = a
last_given pick (f ∷ dto) a = last_given pick dto (or_else (pick f) a)

abbrev some_given : {A : Type 0} → Option A → Option (Option A)
some_given none = none
some_given (some a) = some (some a)

abbrev pub pick_title : Field → Option String
pick_title (Tasks.title v) = v
pick_title _ = none

abbrev pub pick_description : Field → Option (Option String)
pick_description (Tasks.description v) = some_given v
pick_description _ = none

abbrev pub pick_status : Field → Option TaskStatus
pick_status (Tasks.status v) = v
pick_status _ = none

abbrev pub pick_priority : Field → Option TaskPriority
pick_priority (Tasks.priority v) = v
pick_priority _ = none

abbrev pub pick_due_date : Field → Option (Option ℕ)
pick_due_date (Tasks.due_date v) = some_given v
pick_due_date _ = none

abbrev pub pick_category : Field → Option (Option ℕ)
pick_category (Tasks.category v) = some_given v
pick_category _ = none

abbrev pub pick_tags : Field → Option (List String)
pick_tags (Tasks.tags v) = v
pick_tags _ = none

-- The task with what the body gives: seven fields may change, all else stays.
abbrev pub with_given : UpdateTaskDto → Task → Task
with_given dto t = record t {
  title = last_given pick_title dto t.title;
  description = last_given pick_description dto t.description;
  status = last_given pick_status dto t.status;
  priority = last_given pick_priority dto t.priority;
  due_date = last_given pick_due_date dto t.due_date;
  category = last_given pick_category dto t.category;
  tags = last_given pick_tags dto t.tags;
}

with_given-assign :
    (f : Field) (dto : UpdateTaskDto) (t : Task)
    → with_given dto (assign f t) ≡ with_given (f ∷ dto) t
unfolding assign
with_given-assign (Tasks.title none) dto t = refl
with_given-assign (Tasks.title (some v)) dto t = refl
with_given-assign (Tasks.description none) dto t = refl
with_given-assign (Tasks.description (some v)) dto t = refl
with_given-assign (Tasks.status none) dto t = refl
with_given-assign (Tasks.status (some v)) dto t = refl
with_given-assign (Tasks.priority none) dto t = refl
with_given-assign (Tasks.priority (some v)) dto t = refl
with_given-assign (Tasks.due_date none) dto t = refl
with_given-assign (Tasks.due_date (some v)) dto t = refl
with_given-assign (Tasks.category none) dto t = refl
with_given-assign (Tasks.category (some v)) dto t = refl
with_given-assign (Tasks.tags none) dto t = refl
with_given-assign (Tasks.tags (some v)) dto t = refl

pub assign_all_lem : (dto : UpdateTaskDto) (t : Task) → assign_all dto t ≡ with_given dto t
unfolding assign_all
assign_all_lem [] t = refl
assign_all_lem (f ∷ dto) t = assign_all_lem dto (assign f t) ∙ with_given-assign f dto t

-- The status that the body asks for, by its first key of that name, is Done.
abbrev status_key : Field → Option (Option TaskStatus)
status_key (Tasks.status v) = some v
status_key _ = none

abbrev is_some_done : Option TaskStatus → Bool
is_some_done (some Tasks.done) = true
is_some_done _ = false

abbrev pub is_given_done : UpdateTaskDto → Bool
is_given_done [] = false
is_given_done (f ∷ dto) =
    let rest = is_given_done dto in elim (status_key f) [ some v ↦ is_some_done v | none ↦ rest ]

pub asks_done_lem : (dto : UpdateTaskDto) → asks_done dto ≡ is_given_done dto
unfolding asks_done
asks_done_lem [] = refl
asks_done_lem (Tasks.title v ∷ dto) = asks_done_lem dto
asks_done_lem (Tasks.description v ∷ dto) = asks_done_lem dto
asks_done_lem (Tasks.status none ∷ dto) = refl
asks_done_lem (Tasks.status (some s) ∷ dto) = done_lem s
  where
    done_lem : (s : TaskStatus) → is_done s ≡ is_some_done (some s)
    done_lem s = ground arith
asks_done_lem (Tasks.priority v ∷ dto) = asks_done_lem dto
asks_done_lem (Tasks.due_date v ∷ dto) = asks_done_lem dto
asks_done_lem (Tasks.category v ∷ dto) = asks_done_lem dto
asks_done_lem (Tasks.tags v ∷ dto) = asks_done_lem dto

-- ===== src/Examples/Tasks.antt =====
-- Tasks with a collection, versions, pages and a cache in memory.
use task_manager_api.Prelude.{
  ℕ, suc, ◌+◌, ℕ_discrete, String-discrete, ◌≡◌, refl, inl, inr, ap, Bool, true, false, Option,
  none, some, List, [], ◌∷◌, arith, All-map, Bool-cases, ok, err, precondition_failed, not,
}
use task_manager_api.Platform.Collection.{Collection}
use task_manager_api.Platform.Memory
use task_manager_api.Platform.Memory.{scan, get}
use task_manager_api.Platform.VersionedMemory
use task_manager_api.Platform.KeyedMemory
use task_manager_api.Authorization.{admin}
use task_manager_api.Outbox.{OutboxEvent}
use task_manager_api.Tasks.{
  Task, Message, Activity, UpdateTaskDto, in_progress, pending, done, medium, next_version,
}
use task_manager_api.Tasks
use task_manager_api.Tasks.Lists.{Key, Pipeline, IsAscending, TaskQuery, by_offset, descending}
use task_manager_api.Tasks.World.{TaskEnv, TaskWorld, TaskCreated, Seen}
use task_manager_api.Tasks.Update.{prepare, commit, update_task, assign_all}
use task_manager_api.Tasks.Repository.{
  removed, find_authorized_task, save, save_or_fail, live_in, is_live_in,
}
use task_manager_api.Tasks.Commands.{delete_task}
use task_manager_api.Tasks.Steps.{here, step, after, assign, commits}
use task_manager_api.Tasks.Versions.{commit-commit, Updated, update_task-Updated}
use task_manager_api.Tasks.Deleted.{IsUnreachable, delete_task-IsUnreachable}
use task_manager_api.Tasks.Walk.{walk}
use task_manager_api.Tasks.Cursor.{Traversal, walk-Traversal}
use task_manager_api.Tasks.Offset.{page}

Task-discrete : Discrete Task
Task-discrete = hlevel (ℕ_discrete, String-discrete)

Key-discrete : Discrete Key
Key-discrete = hlevel (ℕ_discrete, String-discrete)

abbrev Db : Collection Task
Db = Memory.memory Task

scan-IsAscending : (k : ℕ) (s : List (Option Task)) → IsAscending (scan k (λ t. true) s)
scan-IsAscending k [] = tt
scan-IsAscending k (none ∷ s) = scan-IsAscending (suc k) s
scan-IsAscending k (some t ∷ s) = (
  All-map (λ r h. omega (arith, h.0)) (scan (suc k) (λ t'. true) s)
      (Memory.scan_sound (suc k) (λ t'. true) s),
  scan-IsAscending (suc k) s,
)

abbrev pipe : Pipeline Db
pipe = record {
  documents = scan 0 (λ t. true);
  sort = λ spec rows. rows;
  text_matches = λ x t. false;
  parse_date = λ x. 0;
  object_id = λ x. none;
  documents_ascending = scan-IsAscending 0;
  documents_sound = λ s.
      All-map (λ r h. (Memory.at_zero (λ t. true) s r h).0) (scan 0 (λ t. true) s)
        (Memory.scan_sound 0 (λ t. true) s);
  documents_complete = λ s i t h.
      let z : 0 + i ≡ i = omega arith in rw z at (Memory.scan_complete 0 (λ x. true) i t s h refl);
  sort_sorted = λ rows h. refl;
  length-sort = λ spec rows. refl;
}

abbrev env : TaskEnv
env = record {
  tasks = Db;
  docs = VersionedMemory.memory Task-discrete Db (λ t. t.version) next_version;
  pipe = pipe;
  events = Memory.memory (OutboxEvent TaskCreated);
  cache = KeyedMemory.memory Key-discrete;
  to_lower = λ x. x;
  id_text = λ i. "user";
  document_text = λ i. "[object Object]";
}

abbrev seen : Seen
seen = record {
  role_of = λ ws user. some admin;
  category_for_role = λ c user role. true;
  category_of_user = λ c user. true;
  has_user = λ user. true;
  advanced_filtering = λ ws. true;
}

abbrev chore : Task
chore = record {
  title = "chore";
  description = none;
  status = in_progress;
  priority = medium;
  due_date = none;
  category = none;
  tags = [];
  is_deleted = false;
  deleted_at = none;
  reminder_sent = false;
  comments = [];
  attachments = [];
  owner = 7;
  workspace = 1;
  assignees = [];
  version = 3;
}

abbrev errand : Task
errand = record chore { title = "errand"; version = 0 }

abbrev world : TaskWorld env
world = record {
  tasks = some chore ∷ none ∷ some errand ∷ [];
  events = [];
  lists = record { cached = λ k. none; keys = [] };
  activities = [];
  trail = [];
  published = [];
  emitted = [];
  deleted_files = [];
}

-- One user finishes the task, another renames it.
abbrev finish : UpdateTaskDto
finish = Tasks.status (some done) ∷ []

abbrev rename : UpdateTaskDto
rename = Tasks.title (some "tidy up") ∷ []

modified :
    (t : Task) (dto : UpdateTaskDto)
    → (t ≡ assign_all dto t → ⊥)
    → env.docs.is_modified t (assign_all dto t) ≡ true
modified t dto differs = elim (Bool-cases (env.docs.is_modified t (assign_all dto t))) [
  | inl e ↦ e
  | inr e ↦ absurd (differs (env.docs.unmodified_same t (assign_all dto t) e))
]

finish_modified : env.docs.is_modified chore (assign_all finish chore) ≡ true
unfolding assign_all
finish_modified =
    modified chore finish (λ same. let e : in_progress ≡ done = ap (λ t. t.status) same in cc)

finish_ready : prepare env seen finish 0 7 "user" 1 3 world ≡ ok chore
unfolding prepare
finish_ready = refl

rename_ready : prepare env seen rename 0 8 "user" 1 3 world ≡ ok chore
unfolding prepare
rename_ready = refl

update_task-Updated_example :
    Updated env finish 0 chore world (update_task env seen finish 0 7 "user" 1 3 world)
update_task-Updated_example =
    update_task-Updated env seen finish 0 7 "user" 1 3 chore world finish_ready finish_modified

-- Somebody assigns the task between the two commits.
abbrev finished : TaskWorld env
finished = (commit env finish 0 7 1 chore world).1

abbrev assigned : TaskWorld env
assigned = after env (assign seen 0 7 1 (9 ∷ [])) finished

commit-commit_example :
    ((commit env finish 0 7 1 chore world).0 ≡ ok (next_version (assign_all finish chore)))
    × (commit env rename 0 8 1 chore assigned ≡ (err precondition_failed, assigned))
commit-commit_example =
    commit-commit env seen seen finish rename 0 7 8 "user" "user" 1 1 3 3 chore chore world
      finish_ready rename_ready finish_modified assigned (step (assign seen 0 7 1 (9 ∷ [])) tt here)

removed_modified : env.docs.is_modified chore (removed 50 chore) ≡ true
unfolding removed
removed_modified = elim (Bool-cases (env.docs.is_modified chore (removed 50 chore))) [
  | inl e ↦ e
  | inr e ↦
      let same : false ≡ true =
        ap (λ t. t.is_deleted) (env.docs.unmodified_same chore (removed 50 chore) e) in
      cc
]

delete_succeeds : (delete_task env seen 0 7 1 50 world).0 ≡ ok "Task Deleted Successfully!"
unfolding delete_task find_authorized_task save_or_fail save live_in is_live_in
delete_succeeds = rw (removed_modified, delete_task) refl

-- The commit of an update that was checked before the deletion comes after it.
abbrev removed_world : TaskWorld env
removed_world = (delete_task env seen 0 7 1 50 world).1

delete_task-IsUnreachable_example :
    IsUnreachable env 0 (after env (commits rename 0 8 1 chore) removed_world)
delete_task-IsUnreachable_example =
    delete_task-IsUnreachable env seen 0 7 1 50 "Task Deleted Successfully!" world
      (after env (commits rename 0 8 1 chore) removed_world) delete_succeeds
      (step (commits rename 0 8 1 chore) tt here)

abbrev alive : Task → Bool
alive t = not t.is_deleted

walk-Traversal_example :
    Traversal Db pipe alive world.tasks (walk Db pipe 3 alive 1 none world.tasks)
walk-Traversal_example = walk-Traversal Db pipe 3 alive 1 world.tasks (omega arith) (omega arith)

abbrev query : TaskQuery
query = record {
  page = 1;
  limit = 1;
  pagination = by_offset;
  cursor = none;
  status = none;
  search = none;
  sort = none;
  sort_by = "createdAt";
  order = descending;
  due_from = none;
  due_to = none;
  tags = none;
  assignee = none;
}

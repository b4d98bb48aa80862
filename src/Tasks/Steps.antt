-- ===== src/Tasks/Steps.antt =====
-- The commands of src/task/application/commands as steps on the documents: each leaves them as they
-- were, adds one, or saves one with an edit. A commit of an update stands apart from its guards,
-- since other commands can come between them.
use task_manager_api.Prelude.{ℕ, ◌≡◌, none, List, String}
use task_manager_api.Tasks.{Task, Attachment, Comment, CreateTaskDto, UpdateTaskDto}
use task_manager_api.Tasks.Repository.{
  File, removed, with_attachment, without_attachment, with_comment, with_assignees,
}
use task_manager_api.Tasks.World.{TaskEnv, Seen, TaskWorld}
use task_manager_api.Tasks.Update.{assign_all, commit, update_task}
use task_manager_api.Tasks.Commands.{
  Draw, create_task, delete_task, assign_task, create_comment, upload_attachment, delete_attachment,
}

-- What a command does to a document.
pub data Edit : Type 0 where
  assigns : UpdateTaskDto → Edit
  removes : (now : ℕ) → Edit
  attaches : Attachment → Edit
  detaches : ℕ → Edit
  comments : Comment → Edit
  gives_to : List ℕ → Edit

abbrev pub edited : Edit → Task → Task
edited (assigns dto) = assign_all dto
edited (removes now) = removed now
edited (attaches a) = with_attachment a
edited (detaches id) = without_attachment id
edited (comments c) = with_comment c
edited (gives_to users) = with_assignees users

pub data Op : Type 0 where
  create : Seen → CreateTaskDto → (user workspace : ℕ) → Draw → Op
  update : Seen → UpdateTaskDto → (id user : ℕ) → String → (workspace expected_version : ℕ) → Op
  commits : UpdateTaskDto → (id user workspace : ℕ) → Task → Op
  delete : Seen → (id user workspace now : ℕ) → Op
  assign : Seen → (id user workspace : ℕ) → List ℕ → Op
  comment : (id : ℕ) → String → (user workspace now : ℕ) → Op
  upload : (id : ℕ) → File → (user workspace fresh : ℕ) → Op
  detach : (id attachment_id user workspace : ℕ) → Op

module _ (env : TaskEnv) where
  abbrev pub after : Op → TaskWorld env → TaskWorld env
  after (create seen dto user ws d) w = (create_task env seen dto user ws d w).1
  after (update seen dto id user role ws v) w = (update_task env seen dto id user role ws v w).1
  after (commits dto id user ws t) w = (commit env dto id user ws t w).1
  after (delete seen id user ws now) w = (delete_task env seen id user ws now w).1
  after (assign seen id user ws users) w = (assign_task env seen id user ws users w).1
  after (comment id body user ws now) w = (create_comment env id body user ws now w).1
  after (upload id file user ws fresh) w = (upload_attachment env id file user ws fresh w).1
  after (detach id attachment_id user ws) w = (delete_attachment env id attachment_id user ws w).1

  -- The id of a new document is unused.
  abbrev pub IsAllowed : Op → TaskWorld env → Type 0
  IsAllowed (create _ _ _ _ d) w = env.tasks.find_by_id d.fresh w.tasks ≡ none
  IsAllowed _ w = Unit

  -- Worlds that a run of allowed commands leads to.
  pub data Run (w : TaskWorld env) : TaskWorld env → Type 0 where
    here : Run w w
    step : {v : TaskWorld env} (o : Op) → IsAllowed o v → Run w v → Run w (after o v)

  pub data Reaches (s : env.tasks.Store) : env.tasks.Store → Type 0 where
    same : Reaches s s
    inserted :
        (id : ℕ) (t : Task) → env.tasks.find_by_id id s ≡ none → Reaches s (env.tasks.insert id t s)
    saved : (id : ℕ) (t : Task) (e : Edit) → Reaches s (env.docs.save id t (edited e) s).1

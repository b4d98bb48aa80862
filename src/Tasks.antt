-- ===== src/Tasks.antt =====
-- src/task: the document of a task (Schema/task.schema.ts, Enums), the activities that the commands
-- write beside it (src/activity/Schema/activity.schema.ts), and the bodies of the requests. Ids are
-- numbers, dates are times in milliseconds.
pub mod Repository
pub mod Lists
pub mod Stages
pub mod Listing
pub mod World
pub mod Update
pub mod Commands
pub mod Cursor
pub mod Walk
pub mod Given
pub mod Offset
pub mod Steps
pub mod Reaches
pub mod Kept
pub mod Saves
pub mod Versions
pub mod Deleted
use task_manager_api.Prelude.{
  ℕ, ◌+◌, Bool, true, false, ◌&&◌, not, Option, none, some, List, [], ◌∷◌, ◌==◌, String,
}
use task_manager_api.Platform.Redis.{or_else}

pub data TaskStatus : Type 0 where
  pending in_progress done : TaskStatus

pub data TaskPriority : Type 0 where
  low medium high : TaskPriority

unfoldable pub status_text : TaskStatus → String
status_text pending = "pending"
status_text in_progress = "in-progress"
status_text done = "done"

unfoldable pub priority_text : TaskPriority → String
priority_text low = "low"
priority_text medium = "medium"
priority_text high = "high"

abbrev pub is_done : TaskStatus → Bool
is_done done = true
is_done _ = false

pub record Comment : Type 0 where
  pub author : ℕ
  pub body : String
  pub created_at : ℕ

pub record Attachment : Type 0 where
  pub id : ℕ
  pub filename : String
  pub mime : String
  pub size : ℕ
  pub url : String

pub record Task : Type 0 where
  pub title : String
  pub description : Option String
  pub status : TaskStatus
  pub priority : TaskPriority
  pub due_date : Option ℕ
  pub category : Option ℕ
  pub tags : List String
  pub is_deleted : Bool
  pub deleted_at : Option ℕ
  pub reminder_sent : Bool
  pub comments : List Comment
  pub attachments : List Attachment
  pub owner : ℕ
  pub workspace : ℕ
  pub assignees : List ℕ
  -- `__v`
  pub version : ℕ

abbrev pub next_version : Task → Task
next_version t = record t { version = t.version + 1 }

-- The body of a creation, without the workspace.
pub record CreateTaskDto : Type 0 where
  pub title : String
  pub description : Option String
  pub status : Option TaskStatus
  pub priority : Option TaskPriority
  pub due_date : Option ℕ
  pub category : Option ℕ
  pub tags : Option (List String)

-- The document that `create` makes, with the schema's defaults.
unfoldable pub new_task : CreateTaskDto → (owner workspace : ℕ) → Task
new_task dto owner workspace = record {
  title = dto.title;
  description = dto.description;
  status = or_else dto.status pending;
  priority = or_else dto.priority medium;
  due_date = dto.due_date;
  category = dto.category;
  tags = or_else dto.tags [];
  is_deleted = false;
  deleted_at = none;
  reminder_sent = false;
  comments = [];
  attachments = [];
  owner = owner;
  workspace = workspace;
  assignees = [];
  version = 0;
}

-- The body of an update: its own keys in their order, a key's value `none` where it is `undefined`.
pub data Field : Type 0 where
  title description : Option String → Field
  status : Option TaskStatus → Field
  priority : Option TaskPriority → Field
  due_date category : Option ℕ → Field
  tags : Option (List String) → Field

abbrev pub UpdateTaskDto : Type 0
UpdateTaskDto = List Field

pub data ActivityAction : Type 0 where
  created updated deleted comment_added comment_updated comment_deleted : ActivityAction
  attachment_added attachment_deleted : ActivityAction

-- A value in the record of a change.
pub data Value : Type 0 where
  undefined : Value
  text : String → Value
  date id : ℕ → Value
  texts : List String → Value

pub record Change : Type 0 where
  pub key : String
  pub old : Value
  pub new : Value

pub record Activity : Type 0 where
  pub task : ℕ
  pub user : ℕ
  pub action : ActivityAction
  pub description : String
  pub changes : Option (List Change)

-- What the gateway (src/websocket) sends, to the room of a user given by a text.
pub data Message : Type 0 where
  task_created task_updated : String → ℕ → Message
  task_deleted : String → ℕ → Message

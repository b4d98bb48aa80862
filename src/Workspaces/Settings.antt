-- ===== src/Workspaces/Settings.antt =====
-- src/workspace/application/services/workspace-settings.service.ts, the repository of its documents
-- (infrastructure/persistence/repositories/workspace-settings.repository.ts) and the command
-- update-workspace-settings.
use task_manager_api.Prelude.{
  ℕ, Bool, true, Option, none, some, String, Result, ok, err, internal_error, ◌==◌,
}
use task_manager_api.Platform.Collection.{Collection}
use task_manager_api.Platform.Redis.{or_else}
use task_manager_api.Tasks.{TaskStatus, TaskPriority, pending, medium}

pub record WorkspaceSettings : Type 0 where
  pub workspace_id : ℕ
  pub timezone : String
  pub default_task_priority : TaskPriority
  pub default_task_status : TaskStatus
  pub email_notifications : Bool
  pub task_assignment_notifications : Bool

-- The body of an update.
pub record UpdateSettings : Type 0 where
  pub timezone : Option String
  pub default_task_priority : Option TaskPriority
  pub default_task_status : Option TaskStatus
  pub email_notifications : Option Bool
  pub task_assignment_notifications : Option Bool

-- `DEFAULT_WORKSPACE_SETTINGS`
unfoldable pub default_settings : ℕ → WorkspaceSettings
default_settings workspace_id = record {
  workspace_id = workspace_id;
  timezone = "UTC";
  default_task_priority = medium;
  default_task_status = pending;
  email_notifications = true;
  task_assignment_notifications = true;
}

-- `$set` of the given fields, and `settings.field ?? default` of the new document.
unfoldable pub updated_settings : UpdateSettings → WorkspaceSettings → WorkspaceSettings
updated_settings u c = record {
  workspace_id = c.workspace_id;
  timezone = or_else u.timezone c.timezone;
  default_task_priority = or_else u.default_task_priority c.default_task_priority;
  default_task_status = or_else u.default_task_status c.default_task_status;
  email_notifications = or_else u.email_notifications c.email_notifications;
  task_assignment_notifications =
      or_else u.task_assignment_notifications c.task_assignment_notifications;
}

abbrev pub is_for : ℕ → WorkspaceSettings → Bool
is_for workspace_id c = c.workspace_id == workspace_id

module _ (db : Collection WorkspaceSettings) where
  -- The repository.
  unfoldable pub find_by_workspace_id : ℕ → db.Store → Option (ℕ × WorkspaceSettings)
  find_by_workspace_id workspace_id s = db.find_one (is_for workspace_id) s

  -- The workspace's id has a unique index.
  unfoldable pub create :
      WorkspaceSettings → (fresh : ℕ) → db.Store → Result WorkspaceSettings × db.Store
  create c fresh s = elim (db.find_one (is_for c.workspace_id) s) [
    | some duplicate ↦ (err internal_error, s)
    | none ↦ (ok c, db.insert fresh c s)
  ]

  unfoldable pub update : ℕ → UpdateSettings → db.Store → Result WorkspaceSettings × db.Store
  unfolding updated_settings
  update workspace_id u s = elim (db.find_one (is_for workspace_id) s) [
    | none ↦ (err internal_error, s)
    | some (id, _) ↦
        let (c, s') = db.find_one_and_update id (is_for workspace_id) (updated_settings u) s in
        (elim c [ none ↦ err internal_error | some d ↦ ok d ], s')
  ]

  -- The service: `getSettings` and `createDefaultSettings` are the same.
  unfoldable pub get_settings : ℕ → (fresh : ℕ) → db.Store → Result WorkspaceSettings × db.Store
  unfolding find_by_workspace_id create default_settings
  get_settings workspace_id fresh s = elim (find_by_workspace_id workspace_id s) [
    | some (_, c) ↦ (ok c, s)
    | none ↦ create (default_settings workspace_id) fresh s
  ]

  unfoldable pub create_default_settings :
      ℕ → (fresh : ℕ) → db.Store → Result WorkspaceSettings × db.Store
  unfolding find_by_workspace_id create default_settings
  create_default_settings workspace_id fresh s = elim (find_by_workspace_id workspace_id s) [
    | some (_, c) ↦ (ok c, s)
    | none ↦ create (default_settings workspace_id) fresh s
  ]

  -- The command update-workspace-settings calls it.
  unfoldable pub update_settings :
      ℕ → UpdateSettings → (fresh : ℕ) → db.Store → Result WorkspaceSettings × db.Store
  unfolding find_by_workspace_id create update updated_settings default_settings
  update_settings workspace_id u fresh s = elim (find_by_workspace_id workspace_id s) [
    | none ↦ create (updated_settings u (default_settings workspace_id)) fresh s
    | some _ ↦ update workspace_id u s
  ]

-- ===== src/Workspaces/Flags.antt =====
-- src/workspace/application/services/feature-flags.service.ts, the repository of its documents
-- (infrastructure/persistence/repositories/workspace-feature-flags.repository.ts) and the command
-- update-feature-flags. A `Map` or a partial record from the flags is a function into `Option`.
use task_manager_api.Prelude.{
  ℕ, Bool, true, false, Option, none, some, ◌==◌, Result, ok, err, internal_error,
}
use task_manager_api.Platform.Collection.{Collection}

pub data WorkspaceFeatureFlag : Type 0 where
  webhooks exports reminders email_notifications advanced_task_filtering : WorkspaceFeatureFlag

abbrev pub FlagMap : Type 0
FlagMap = WorkspaceFeatureFlag → Option Bool

pub record WorkspaceFeatureFlags : Type 0 where
  pub workspace_id : ℕ
  pub flags : FlagMap

-- `DEFAULT_WORKSPACE_FEATURE_FLAGS`
unfoldable pub default_flags : WorkspaceFeatureFlag → Bool
default_flags webhooks = true
default_flags exports = true
default_flags reminders = true
default_flags email_notifications = true
default_flags advanced_task_filtering = false

-- `a ?? b`
abbrev pub otherwise : Option Bool → Bool → Bool
otherwise none b = b
otherwise (some a) b = a

-- `{ ...base, ...flags }`
abbrev pub spread : FlagMap → FlagMap → FlagMap
spread base flags f = elim (flags f) [ none ↦ base f | some b ↦ some b ]

unfoldable pub all_default : FlagMap
unfolding default_flags
all_default f = some (default_flags f)

abbrev pub is_for : ℕ → WorkspaceFeatureFlags → Bool
is_for workspace_id c = c.workspace_id == workspace_id

-- What the body of the request may set, as `UpdateFeatureFlagsDto`.
pub record UpdateFeatureFlagsDto : Type 0 where
  pub webhooks : Option Bool
  pub exports : Option Bool
  pub reminders : Option Bool
  pub email_notifications : Option Bool
  pub advanced_task_filtering : Option Bool

module _ (db : Collection WorkspaceFeatureFlags) where
  -- The repository.
  unfoldable pub find_by_workspace_id : ℕ → db.Store → Option (ℕ × WorkspaceFeatureFlags)
  find_by_workspace_id workspace_id s = db.find_one (is_for workspace_id) s

  -- The workspace's id has a unique index.
  unfoldable pub create :
      ℕ → FlagMap → (fresh : ℕ) → db.Store → Result WorkspaceFeatureFlags × db.Store
  create workspace_id flags fresh s =
      let c : WorkspaceFeatureFlags = record { workspace_id = workspace_id; flags = flags } in
      elim (db.find_one (is_for workspace_id) s) [
        | some duplicate ↦ (err internal_error, s)
        | none ↦ (ok c, db.insert fresh c s)
      ]

  -- `$set` of the given keys of the map.
  unfoldable pub update : ℕ → FlagMap → db.Store → Result WorkspaceFeatureFlags × db.Store
  update workspace_id flags s = elim (db.find_one (is_for workspace_id) s) [
    | none ↦ (err internal_error, s)
    | some (id, _) ↦
        let (c, s') =
          db.find_one_and_update id (is_for workspace_id)
            (λ d. record d { flags = spread d.flags flags }) s in
        (elim c [ none ↦ err internal_error | some d ↦ ok d ], s')
  ]

  -- The service.
  unfoldable pub is_enabled : ℕ → WorkspaceFeatureFlag → db.Store → Bool
  unfolding find_by_workspace_id
  is_enabled workspace_id f s = elim (find_by_workspace_id workspace_id s) [
    | none ↦ default_flags f
    | some (_, c) ↦ otherwise (c.flags f) false
  ]

  unfoldable pub get_flags : ℕ → db.Store → FlagMap
  unfolding find_by_workspace_id
  get_flags workspace_id s = elim (find_by_workspace_id workspace_id s) [
    | none ↦ all_default
    | some (_, c) ↦ spread all_default c.flags
  ]

  unfoldable pub create_default_configuration :
      ℕ → (fresh : ℕ) → db.Store → Result WorkspaceFeatureFlags × db.Store
  unfolding find_by_workspace_id create
  create_default_configuration workspace_id fresh s = elim (find_by_workspace_id workspace_id s) [
    | some (_, c) ↦ (ok c, s)
    | none ↦ create workspace_id all_default fresh s
  ]

  unfoldable pub update_flags :
      ℕ → FlagMap → (fresh : ℕ) → db.Store → Result WorkspaceFeatureFlags × db.Store
  unfolding find_by_workspace_id create update
  update_flags workspace_id flags fresh s = elim (find_by_workspace_id workspace_id s) [
    | none ↦ create workspace_id (spread all_default flags) fresh s
    | some _ ↦ update workspace_id flags s
  ]

  -- The command: the keys of the body that are not `undefined`.
  unfoldable pub given_flags : UpdateFeatureFlagsDto → FlagMap
  given_flags dto webhooks = dto.webhooks
  given_flags dto exports = dto.exports
  given_flags dto reminders = dto.reminders
  given_flags dto email_notifications = dto.email_notifications
  given_flags dto advanced_task_filtering = dto.advanced_task_filtering

  unfoldable pub update_feature_flags :
      ℕ → UpdateFeatureFlagsDto → (fresh : ℕ) → db.Store → Result WorkspaceFeatureFlags × db.Store
  unfolding given_flags update_flags
  update_feature_flags workspace_id dto fresh s =
      update_flags workspace_id (given_flags dto) fresh s

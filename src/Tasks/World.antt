-- ===== src/Tasks/World.antt =====
-- What the commands of src/task/application/commands share: the stores that they write, what they
-- read of other components through the interfaces of the repositories, and the activity and the
-- entry of the trail that each writes (src/activity/infrastructure/persistence, src/audit).
use task_manager_api.Prelude.{ℕ, Bool, Option, none, some, List, ◌∷◌, String}
use task_manager_api.Platform.Collection.{Collection}
use task_manager_api.Platform.KeyedCache.{KeyedCache}
use task_manager_api.Platform.Tracked.{Tracked, clear_cache}
use task_manager_api.Platform.Versioned.{Versioned}
use task_manager_api.Audit.{Entry, MetaValue, log}
use task_manager_api.Authorization.{WorkspaceRole}
use task_manager_api.Outbox.{OutboxEvent}
use task_manager_api.Tasks.{Task, next_version, Activity, ActivityAction, Change, Message}
use task_manager_api.Tasks.Lists.{Key, Page, Pipeline}

-- The payload of a `TASK_CREATED` event.
pub record TaskCreated : Type 0 where
  pub task_id : ℕ
  pub owner_id : ℕ
  pub title : String

pub record TaskEnv : Type 1 where
  pub tasks : Collection Task
  pub docs : Versioned tasks (λ t. t.version) next_version
  pub pipe : Pipeline tasks
  pub events : Collection (OutboxEvent TaskCreated)
  pub cache : KeyedCache Key Page
  pub to_lower : String → String
  -- `toString` of an id, and of the user's document that takes the place of the owner's id.
  pub id_text : ℕ → String
  pub document_text : ℕ → String

-- What a command finds in the other repositories: the role of a user in a workspace
-- (`findByWorkspaceAndUser`), whether a user may use a category (`findByIdForRole`, `findById`),
-- whether a user's document is there, and the flag of advanced filtering.
pub record Seen : Type 0 where
  pub role_of : (workspace user : ℕ) → Option WorkspaceRole
  pub category_for_role : (category user : ℕ) → (role : String) → Bool
  pub category_of_user : (category user : ℕ) → Bool
  pub has_user : ℕ → Bool
  pub advanced_filtering : (workspace : ℕ) → Bool

module _ (env : TaskEnv) where
  pub record TaskWorld : Type 0 where
    pub tasks : env.tasks.Store
    pub events : env.events.Store
    pub lists : Tracked env.cache
    pub activities : List Activity
    pub trail : List Entry
    -- The `TaskCompletedEvent`s on the bus: the task and its owner.
    pub published : List (ℕ × ℕ)
    pub emitted : List Message
    -- The files that were asked to be deleted.
    pub deleted_files : List String

  -- `auditService.log`
  unfoldable pub audit_task :
      (user : ℕ)
      → (action resource : String) → (workspace : ℕ) → List (String × MetaValue)
      → TaskWorld
      → TaskWorld
  audit_task user action resource workspace meta w = record w {
    trail =
        log env.to_lower
          (record {
            actor_id = some user;
            action = action;
            resource = resource;
            workspace_id = some workspace;
            ip = none;
            meta = some meta;
          })
          w.trail;
  }

  -- `activityRepository.create`
  unfoldable pub with_activity :
      (id user : ℕ) → ActivityAction → String → Option (List Change) → TaskWorld → TaskWorld
  with_activity id user action description changes w = record w {
    activities =
        record {
          task = id;
          user = user;
          action = action;
          description = description;
          changes = changes;
        }
        ∷ w.activities;
  }

  -- `clearCache` of the repository of tasks.
  unfoldable pub clear_lists : TaskWorld → TaskWorld
  clear_lists w = record w { lists = clear_cache env.cache w.lists }

  unfoldable pub emit : Message → TaskWorld → TaskWorld
  emit m w = record w { emitted = m ∷ w.emitted }

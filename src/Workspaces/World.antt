-- ===== src/Workspaces/World.antt =====
-- What the commands of src/workspace/application/commands share: the repositories that they call, the
-- trail that they write (src/audit), and the invitations that they mail (src/mail/mail.service.ts).
use task_manager_api.Prelude.{ℕ, Bool, true, false, Option, none, some, List, String, Result}
use task_manager_api.Platform.Collection.{Collection}
use task_manager_api.Platform.Cache.{Cache}
use task_manager_api.Platform.KeyedCache.{KeyedCache}
use task_manager_api.Users.{User}
use task_manager_api.Users.Repository as Accounts
use task_manager_api.Audit.{Entry, Meta, log}
use task_manager_api.Authorization.{WorkspaceRole, owner, admin, member, viewer}
use task_manager_api.Workspaces.{Workspace, Membership, Invitation}
use task_manager_api.Workspaces.Repository
use task_manager_api.Workspaces.Memberships
use task_manager_api.Workspaces.Invitations
use task_manager_api.Workspaces.Flags.{WorkspaceFeatureFlags}
use task_manager_api.Workspaces.Settings.{WorkspaceSettings}

pub record WorkspaceEnv : Type 1 where
  pub users : Collection User
  pub user_cache : Cache User
  pub user_list_cache : Cache (List Accounts.Found)
  pub workspaces : Collection Workspace
  pub workspace_cache : KeyedCache Repository.Key Repository.Found
  pub workspace_list_cache : KeyedCache Repository.ListKey (List Repository.Found)
  pub memberships : Collection Membership
  pub member_cache : KeyedCache (ℕ × ℕ) Memberships.Member
  pub member_list_cache : KeyedCache Memberships.ListKey (List Memberships.Member)
  pub invitations : Collection Invitation
  pub invitation_cache : KeyedCache Invitations.Key (List Invitations.Invited)
  pub flags : Collection WorkspaceFeatureFlags
  pub settings : Collection WorkspaceSettings
  pub to_lower : String → String
  pub trim : String → String
  -- The settings `lowercase` and `trim` of an email and of a slug in the schemas.
  pub normal_email : String → String
  pub normal_slug : String → String
  -- `sort` of an array of ids.
  pub sorted : List ℕ → List ℕ
  pub sha256 : String → String

-- The text of a role, as it is stored.
unfoldable pub role_text : WorkspaceRole → String
role_text owner = "OWNER"
role_text admin = "ADMIN"
role_text member = "MEMBER"
role_text viewer = "VIEWER"

abbrev pub is_owner : WorkspaceRole → Bool
is_owner owner = true
is_owner _ = false

-- A mailed invitation: its address, the workspace's name, the token and its expiry.
pub record InvitationMail : Type 0 where
  pub to : String
  pub workspace_name : String
  pub token : String
  pub expires_at : ℕ

module _ (env : WorkspaceEnv) where
  pub record WorkspaceWorld : Type 0 where
    pub users : Accounts.Users env.users env.user_cache env.user_list_cache
    pub workspaces :
        Repository.Workspaces env.trim env.normal_slug env.sorted env.workspaces env.workspace_cache
          env.workspace_list_cache
    pub memberships : Memberships.Memberships env.memberships env.member_cache env.member_list_cache
    pub invitations :
        Invitations.Invitations env.normal_email env.to_lower env.invitations env.invitation_cache
    pub flags : env.flags.Store
    pub settings : env.settings.Store
    pub trail : List Entry
    pub mails : List InvitationMail

  -- `auditService.log`
  unfoldable pub audit :
      (user : ℕ)
      → (action resource : String) → (workspace : ℕ) → Option Meta
      → WorkspaceWorld
      → WorkspaceWorld
  audit user action resource workspace meta w = record w {
    trail =
        log env.to_lower
          (record {
            actor_id = some user;
            action = action;
            resource = resource;
            workspace_id = some workspace;
            ip = none;
            meta = meta;
          })
          w.trail;
  }

  -- The repositories' calls in the world.
  unfoldable pub find_user : ℕ → WorkspaceWorld → Option Accounts.Found × WorkspaceWorld
  unfolding Accounts.find_by_id
  find_user id w =
      let (found, users) =
        Accounts.find_by_id env.users env.user_cache env.user_list_cache id w.users in
      (found, record w { users = users })

  unfoldable pub find_workspace : ℕ → WorkspaceWorld → Option Repository.Found × WorkspaceWorld
  unfolding Repository.find_by_id
  find_workspace id w =
      let (found, workspaces) =
        Repository.find_by_id env.trim env.normal_slug env.sorted env.workspaces env.workspace_cache
          env.workspace_list_cache id w.workspaces in
      (found, record w { workspaces = workspaces })

  unfoldable pub find_member :
      (workspace user : ℕ) → WorkspaceWorld → Option Memberships.Member × WorkspaceWorld
  unfolding Memberships.find_by_workspace_and_user
  find_member workspace user w =
      let (found, memberships) =
        Memberships.find_by_workspace_and_user env.memberships env.member_cache
          env.member_list_cache workspace user w.memberships in
      (found, record w { memberships = memberships })

  unfoldable pub create_member :
      (workspace user : ℕ)
      → WorkspaceRole
      → (fresh : ℕ) → WorkspaceWorld
      → Result Memberships.Member × WorkspaceWorld
  unfolding Memberships.create
  create_member workspace user role fresh w =
      let (made, memberships) =
        Memberships.create env.memberships env.member_cache env.member_list_cache workspace user
          role fresh w.memberships in
      (made, record w { memberships = memberships })

-- ===== src/Workspaces.antt =====
-- src/workspace: the documents of infrastructure/persistence/schemas. Ids are numbers, dates are
-- times in milliseconds.
pub mod Memberships
pub mod Invitations
pub mod Repository
pub mod Refinement
pub mod Flags
pub mod FlagWrites
pub mod FlagUpdates
pub mod Settings
pub mod World
pub mod Invite
pub mod Members
pub mod Answers
pub mod Expired
use task_manager_api.Prelude.{ℕ, String}
use task_manager_api.Authorization.{WorkspaceRole}
use task_manager_api.Authorization.Guard.{MembershipStatus}

pub record Workspace : Type 0 where
  pub name : String
  pub slug : String
  pub owner_id : ℕ

pub record Membership : Type 0 where
  pub workspace_id : ℕ
  pub user_id : ℕ
  pub role : WorkspaceRole
  pub status : MembershipStatus

pub data InvitationStatus : Type 0 where
  pending accepted declined expired : InvitationStatus

pub InvitationStatus-discrete : Discrete InvitationStatus
InvitationStatus-discrete = hlevel

pub record Invitation : Type 0 where
  pub workspace_id : ℕ
  pub email : String
  pub role : WorkspaceRole
  pub token_hash : String
  pub expires_at : ℕ
  pub status : InvitationStatus
  pub invited_by : ℕ

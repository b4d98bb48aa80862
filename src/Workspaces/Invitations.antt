-- ===== src/Workspaces/Invitations.antt =====
-- src/workspace/infrastructure/persistence/repositories/invitation.repository.ts. The pending
-- invitations of an email and of a workspace are cached; `to_lower` is `toLowerCase`, and the
-- schema's `lowercase` and `trim` of the email are the function `normal`.
use task_manager_api.Prelude.{ℕ, ◌*◌, Bool, true, false, ◌&&◌, Option, List, String, ◌==◌, str_eq}
use task_manager_api.Platform.Collection.{Collection}
use task_manager_api.Platform.KeyedCache.{KeyedCache}
use task_manager_api.Platform.Tracked.{Tracked, read_all, clear_cache}
use task_manager_api.Authorization.{WorkspaceRole}
use task_manager_api.Workspaces.{Invitation, InvitationStatus, pending, accepted, declined}

abbrev pub Invited : Type 0
Invited = ℕ × Invitation

-- `invitations:pending:email:<email>` and `invitations:pending:workspace:<id>`
pub data Key : Type 0 where
  of_email : String → Key
  of_workspace : ℕ → Key

abbrev pub cache_time : ℕ
cache_time = 30 * 1000

abbrev pub is_pending : InvitationStatus → Bool
is_pending pending = true
is_pending _ = false

unfoldable pub new_invitation :
    (normal : String → String) → ℕ → String → WorkspaceRole → String → ℕ → ℕ → Invitation
new_invitation normal workspace_id email role token_hash expires_at invited_by = record {
  workspace_id = workspace_id;
  email = normal email;
  role = role;
  token_hash = token_hash;
  expires_at = expires_at;
  status = pending;
  invited_by = invited_by;
}

module _ (normal to_lower : String → String) (db : Collection Invitation)
    (cache : KeyedCache Key (List Invited)) where
  pub record Invitations : Type 0 where
    pub docs : db.Store
    pub lists : Tracked cache

  abbrev pub stored : db.Store → Key → List Invited
  stored docs (of_email email) =
      db.find_where (λ i. str_eq i.email email && is_pending i.status) docs
  stored docs (of_workspace id) =
      db.find_where (λ i. i.workspace_id == id && is_pending i.status) docs

  unfoldable pub clear_lists : Invitations → Invitations
  clear_lists s = record s { lists = clear_cache cache s.lists }

  unfoldable pub create :
      (workspace_id : ℕ)
      → String
      → WorkspaceRole
      → String
      → (expires_at invited_by fresh : ℕ) → Invitations
      → Invited × Invitations
  unfolding clear_lists new_invitation
  create workspace_id email role token_hash expires_at invited_by fresh s =
      let i =
        new_invitation normal workspace_id (to_lower email) role token_hash expires_at invited_by in
      ((fresh, i), clear_lists (record s { docs = db.insert fresh i s.docs }))

  unfoldable pub find_by_token_hash : String → Invitations → Option Invited
  find_by_token_hash token_hash s = db.find_one (λ i. str_eq i.token_hash token_hash) s.docs

  unfoldable pub find_pending_by_email : String → Invitations → List Invited × Invitations
  find_pending_by_email email s =
      let key = of_email (to_lower email) in
      let (found, lists) = read_all cache key cache_time (stored s.docs key) s.lists in
      (found, record s { lists = lists })

  unfoldable pub find_pending_by_workspace : ℕ → Invitations → List Invited × Invitations
  find_pending_by_workspace id s =
      let key = of_workspace id in
      let (found, lists) = read_all cache key cache_time (stored s.docs key) s.lists in
      (found, record s { lists = lists })

  -- The update of one document, and the cache dropped.
  unfoldable pub set_status :
      (Invitation → Bool) → InvitationStatus → ℕ → Invitations → Option Invitation × Invitations
  unfolding clear_lists
  set_status filter status id s =
      let (i, docs) = db.find_one_and_update id filter (λ i. record i { status = status }) s.docs in
      (i, clear_lists (record s { docs = docs }))

  unfoldable pub update_status :
      ℕ → InvitationStatus → Invitations → Option Invitation × Invitations
  unfolding set_status
  update_status id status s = set_status (λ i. true) status id s

  unfoldable pub mark_accepted : ℕ → Invitations → Invitations
  unfolding set_status
  mark_accepted id s = (set_status (λ i. is_pending i.status) accepted id s).1

  unfoldable pub mark_declined : ℕ → Invitations → Invitations
  unfolding set_status
  mark_declined id s = (set_status (λ i. is_pending i.status) declined id s).1

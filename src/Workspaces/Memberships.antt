-- ===== src/Workspaces/Memberships.antt =====
-- src/workspace/infrastructure/persistence/repositories/membership.repository.ts. The collection
-- has a unique index on the workspace and the user: an insertion that breaks it fails with the code
-- 11000. The set of keys is kept apart by the type of the value, one document or a list.
use task_manager_api.Prelude.{
  ℕ, ◌*◌, Bool, ◌&&◌, Option, none, some, List, ◌==◌, is_some, Result, ok, err, conflict,
}
use task_manager_api.Platform.Collection.{Collection}
use task_manager_api.Platform.KeyedCache.{KeyedCache}
use task_manager_api.Platform.Tracked.{Tracked, read_one, read_all, clear_cache}
use task_manager_api.Authorization.{WorkspaceRole}
use task_manager_api.Authorization.Guard.{active}
use task_manager_api.Workspaces.{Membership}

abbrev pub Member : Type 0
Member = ℕ × Membership

-- `memberships:user:<id>` and `memberships:workspace:<id>`
pub data ListKey : Type 0 where
  of_user of_workspace : ℕ → ListKey

abbrev pub cache_time : ℕ
cache_time = 30 * 1000

abbrev pub is_of : ℕ → ℕ → Membership → Bool
is_of workspace_id user_id m = m.workspace_id == workspace_id && m.user_id == user_id

unfoldable pub new_membership : ℕ → ℕ → WorkspaceRole → Membership
new_membership workspace_id user_id role = record {
  workspace_id = workspace_id;
  user_id = user_id;
  role = role;
  status = active;
}

module _ (db : Collection Membership) (cache : KeyedCache (ℕ × ℕ) Member)
    (list_cache : KeyedCache ListKey (List Member)) where
  pub record Memberships : Type 0 where
    pub docs : db.Store
    pub one : Tracked cache
    pub many : Tracked list_cache

  unfoldable pub clear_caches : Memberships → Memberships
  clear_caches s = record s { one = clear_cache cache s.one; many = clear_cache list_cache s.many }

  -- The documents that a query without the cache gives.
  abbrev pub stored_one : db.Store → ℕ × ℕ → Option Member
  stored_one docs k = db.find_one (is_of k.0 k.1) docs

  abbrev pub stored_many : db.Store → ListKey → List Member
  stored_many docs (of_user id) = db.find_where (λ m. m.user_id == id) docs
  stored_many docs (of_workspace id) = db.find_where (λ m. m.workspace_id == id) docs

  unfoldable pub create :
      (workspace_id user_id : ℕ)
      → WorkspaceRole
      → (fresh : ℕ) → Memberships
      → Result Member × Memberships
  unfolding clear_caches new_membership
  create workspace_id user_id role fresh s =
      let m = new_membership workspace_id user_id role in
      elim (db.find_one (is_of workspace_id user_id) s.docs) [
        | some duplicate ↦ (err conflict, s)
        | none ↦ (ok (fresh, m), clear_caches (record s { docs = db.insert fresh m s.docs }))
      ]

  unfoldable pub find_by_workspace_and_user :
      (workspace_id user_id : ℕ) → Memberships → Option Member × Memberships
  find_by_workspace_and_user workspace_id user_id s =
      let (found, one) =
        read_one cache (workspace_id, user_id) cache_time
          (stored_one s.docs (workspace_id, user_id)) s.one in
      (found, record s { one = one })

  unfoldable pub find_by_user : ℕ → Memberships → List Member × Memberships
  find_by_user user_id s =
      let (found, many) =
        read_all list_cache (of_user user_id) cache_time (stored_many s.docs (of_user user_id))
          s.many in
      (found, record s { many = many })

  unfoldable pub find_by_workspace : ℕ → Memberships → List Member × Memberships
  find_by_workspace workspace_id s =
      let (found, many) =
        read_all list_cache (of_workspace workspace_id) cache_time
          (stored_many s.docs (of_workspace workspace_id)) s.many in
      (found, record s { many = many })

  unfoldable pub exists : (workspace_id user_id : ℕ) → Memberships → Bool
  exists workspace_id user_id s = is_some (db.find_one (is_of workspace_id user_id) s.docs)

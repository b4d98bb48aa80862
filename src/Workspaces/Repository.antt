-- ===== src/Workspaces/Repository.antt =====
-- src/workspace/infrastructure/persistence/repositories/workspace.repository.ts. The slug has a
-- unique index; `normal_slug` and `trim` are the schema's settings `lowercase` and `trim`. `sorted`
-- is `sort` of an array of ids.
use task_manager_api.Prelude.{
  ℕ, ◌*◌, Option, none, some, List, String, ◌==◌, str_eq, Result, ok, err, internal_error,
}
use task_manager_api.Platform.Collection.{Collection}
use task_manager_api.Platform.KeyedCache.{KeyedCache}
use task_manager_api.Platform.Tracked.{Tracked, read_one, read_all, clear_cache}
use task_manager_api.Workspaces.{Workspace}

abbrev pub Found : Type 0
Found = ℕ × Workspace

-- `workspace:<id>` and `workspace:slug:<slug>`
pub data Key : Type 0 where
  of_id : ℕ → Key
  of_slug : String → Key

-- `workspaces:owner:<id>` and `workspaces:ids:<ids>`
pub data ListKey : Type 0 where
  of_owner : ℕ → ListKey
  of_ids : List ℕ → ListKey

abbrev pub cache_time : ℕ
cache_time = 60 * 1000

abbrev with_id : ℕ → Option Workspace → Option Found
with_id id none = none
with_id id (some w) = some (id, w)

unfoldable pub new_workspace :
    (trim normal_slug : String → String) → String → String → ℕ → Workspace
new_workspace trim normal_slug name slug owner_id = record {
  name = trim name;
  slug = normal_slug slug;
  owner_id = owner_id;
}

module _ (trim normal_slug : String → String) (sorted : List ℕ → List ℕ) (db : Collection Workspace)
    (cache : KeyedCache Key Found) (list_cache : KeyedCache ListKey (List Found)) where
  pub record Workspaces : Type 0 where
    pub docs : db.Store
    pub one : Tracked cache
    pub many : Tracked list_cache

  abbrev pub stored_one : db.Store → Key → Option Found
  stored_one docs (of_id id) = with_id id (db.find_by_id id docs)
  stored_one docs (of_slug slug) = db.find_one (λ w. str_eq w.slug slug) docs

  unfoldable pub clear_caches : Workspaces → Workspaces
  clear_caches s = record s { one = clear_cache cache s.one; many = clear_cache list_cache s.many }

  -- A slug that is there already breaks the unique index.
  unfoldable pub create :
      String → String → (owner_id fresh : ℕ) → Workspaces → Result Found × Workspaces
  unfolding clear_caches new_workspace
  create name slug owner_id fresh s =
      let w = new_workspace trim normal_slug name slug owner_id in
      elim (db.find_one (λ v. str_eq v.slug w.slug) s.docs) [
        | some duplicate ↦ (err internal_error, s)
        | none ↦ (ok (fresh, w), clear_caches (record s { docs = db.insert fresh w s.docs }))
      ]

  unfoldable pub find_by_id : ℕ → Workspaces → Option Found × Workspaces
  find_by_id id s =
      let (found, one) =
        read_one cache (of_id id) cache_time (stored_one s.docs (of_id id)) s.one in
      (found, record s { one = one })

  unfoldable pub find_by_slug : String → Workspaces → Option Found × Workspaces
  find_by_slug slug s =
      let (found, one) =
        read_one cache (of_slug slug) cache_time (stored_one s.docs (of_slug slug)) s.one in
      (found, record s { one = one })

  unfoldable pub find_by_owner : ℕ → Workspaces → List Found × Workspaces
  find_by_owner owner_id s =
      let (found, many) =
        read_all list_cache (of_owner owner_id) cache_time
          (db.find_where (λ w. w.owner_id == owner_id) s.docs) s.many in
      (found, record s { many = many })

  -- `ids_in` finds the documents whose id is in the list.
  unfoldable pub find_by_ids :
      (ids_in : List ℕ → db.Store → List Found) → List ℕ → Workspaces → List Found × Workspaces
  find_by_ids ids_in ids s =
      let (found, many) =
        read_all list_cache (of_ids (sorted ids)) cache_time (ids_in ids s.docs) s.many in
      (found, record s { many = many })

-- ===== src/Tasks/Offset.antt =====
-- The pages by number of `findAll` (src/task/infrastructure/persistence/task.repository.ts), read one
-- after the other while no task is written.
use task_manager_api.Prelude.{
  ℕ, zero, suc, ◌+◌, ◌*◌, ◌≤◌, Bool, List, [], ◌∷◌, ◌++◌, ◌<◌, if◌then◌else◌, str_eq,
}
use task_manager_api.Platform.Collection.{Collection}
use task_manager_api.Tasks.{Task}
use task_manager_api.Tasks.Lists.{
  Row, Page, TaskQuery, SortSpec, ascending, by_offset, Pipeline, matching,
}
use task_manager_api.Tasks.Listing.{offset_page, aggregate_sort}

-- So many pages are enough, and one fewer is not: the last one has a row.
abbrev pub IsPageCount : (total limit pages : ℕ) → Type 0
IsPageCount total limit pages = (total ≤ pages * limit) × (pages * limit < total + limit)

-- The order of a query that has no `sort`: by its field, priorities by their weight, and by the id
-- where that leaves two tasks equal.
abbrev pub order_of : TaskQuery → SortSpec
order_of q =
    ((if str_eq q.sort_by "priority" then "priorityWeight" else q.sort_by), q.order)
    ∷ ("_id", ascending)
    ∷ []

module _ (db : Collection Task) (pipe : Pipeline db) (p : Task → Bool) (q : TaskQuery)
    (s : db.Store) where
  -- The page with the number k + 1.
  abbrev pub page : ℕ → Page
  page k = offset_page db pipe p (record q { page = k + 1; pagination = by_offset }) s

  -- The rows of the first m pages.
  unfoldable pub first_pages : ℕ → List Row
  first_pages zero = []
  first_pages (suc m) = first_pages m ++ (page m).rows

  -- The matching tasks in the order of the query.
  abbrev pub in_order : List Row
  in_order = pipe.sort (order_of q) (matching (λ r. p r.1) (pipe.documents s))

  abbrev sorted : List Row
  sorted =
      pipe.sort (aggregate_sort (record q { pagination = by_offset }))
        (matching (λ r. p r.1) (pipe.documents s))

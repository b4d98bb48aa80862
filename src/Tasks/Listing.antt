-- ===== src/Tasks/Listing.antt =====
-- `findAll` of src/task/infrastructure/persistence/task.repository.ts: the filter, the order, the
-- page, and the cache before them.
use Prim.Native.Char.{Char, code}
use Prim.Native.Nat.{◌/◌}
use task_manager_api.Prelude.{
  ℕ, ◌+◌, ◌-◌, ◌*◌, Bool, true, false, ◌&&◌, ◌||◌, not, Option, none, some, is_some, List, [], ◌∷◌,
  length, any, every, String, str_eq, ◌==◌, ltb, leb, if◌then◌else◌, Result, ok, err, bad_request,
  forbidden,
}
use task_manager_api.Platform.Collection.{Collection}
use task_manager_api.Platform.KeyedCache.{KeyedCache}
use task_manager_api.Platform.Tracked.{Tracked, remember}
use task_manager_api.Authorization.Guard.{non_empty}
use task_manager_api.Tasks.{Task, status_text}
use task_manager_api.Tasks.Lists.{
  Direction, ascending, descending, by_offset, by_cursor, TaskQuery, Key, Row, Page, cursor_meta,
  offset_meta, SortSpec, by_id, Pipeline, matching, limited, skipped, pop, last_id,
}

-- `text.split(separator)`, the separator by its code.
unfoldable pub push_char : Char → List String → List String
push_char c [] = String.◌∷◌ c String.[] ∷ []
push_char c (w ∷ ws) = String.◌∷◌ c w ∷ ws

unfoldable pub split : ℕ → String → List String
unfolding push_char
split separator String.[] = String.[] ∷ []
split separator (String.◌∷◌ c s) =
    let rest = split separator s in
    if code c == separator then String.[] ∷ rest else push_char c rest

abbrev comma : ℕ
comma = 44

abbrev colon : ℕ
colon = 58

-- The queries that need the feature flag.
unfoldable pub advanced_requested : TaskQuery → Bool
advanced_requested q =
    is_some q.due_from
    || is_some q.due_to
    || is_some q.tags
    || is_some q.assignee
    || is_some q.sort
    || not (str_eq q.sort_by "createdAt")
    || elim q.order [ ascending ↦ true | descending ↦ false ]

-- A condition on a field where the query asks for it.
abbrev where_given : Option String → (String → Bool) → Bool
where_given none test = true
where_given (some x) test = test x

abbrev on_date : Option ℕ → (ℕ → Bool) → Bool
on_date none test = false
on_date (some d) test = test d

-- An object's keys keep their place when they are set again.
unfoldable pub set_key : String → Direction → SortSpec → SortSpec
set_key k d [] = (k, d) ∷ []
set_key k d ((j, e) ∷ spec) =
    let rest = set_key k d spec in if str_eq j k then (j, d) ∷ spec else (j, e) ∷ rest

unfoldable pub delete_key : String → SortSpec → SortSpec
delete_key k [] = []
delete_key k ((j, e) ∷ spec) =
    let rest = delete_key k spec in if str_eq j k then rest else (j, e) ∷ rest

unfoldable pub lookup_key : String → SortSpec → Option Direction
lookup_key k [] = none
lookup_key k ((j, e) ∷ spec) = if str_eq j k then some e else lookup_key k spec

-- One field of `sort`, `key:direction`.
unfoldable pub sort_field : String → SortSpec → SortSpec
unfolding split set_key
sort_field field spec = elim (split colon field) [
  | [] ↦ spec
  | key ∷ [] ↦ set_key key descending spec
  | key ∷ direction ∷ _ ↦
      set_key key (if str_eq direction "asc" then ascending else descending) spec
]

unfoldable pub sort_fields : List String → SortSpec → SortSpec
unfolding sort_field
sort_fields [] spec = spec
sort_fields (f ∷ fs) spec = sort_fields fs (sort_field f spec)

-- `sortObj` of a query that is not by cursor, and `aggregateSort`.
unfoldable pub sort_of : TaskQuery → SortSpec
unfolding split sort_fields
sort_of q = elim (non_empty q.sort) [
  | some fields ↦ sort_fields (split comma fields) []
  | none ↦ (q.sort_by, q.order) ∷ []
]

unfoldable pub assign_keys : SortSpec → SortSpec → SortSpec
unfolding set_key
assign_keys base [] = base
assign_keys base ((k, d) ∷ spec) = assign_keys (set_key k d base) spec

unfoldable pub aggregate_sort : TaskQuery → SortSpec
unfolding sort_of lookup_key delete_key assign_keys set_key
aggregate_sort q = elim q.pagination [
  | by_cursor ↦ by_id
  | by_offset ↦
      let spec = sort_of q in
      let base : SortSpec = elim (lookup_key "priority" spec) [
        | none ↦ []
        | some d ↦ ("priorityWeight", d) ∷ []
      ] in
      set_key "_id" ascending (assign_keys base (delete_key "priority" spec))
]

-- `Math.ceil(total / limit)`
unfoldable pub pages_of : (total limit : ℕ) → ℕ
pages_of total limit = (total + (limit - 1)) / limit

module _ (db : Collection Task) (pipe : Pipeline db) where
  -- The `filter`, or an assignee that is no id.
  unfoldable pub filter_of :
      (user : ℕ) → (role : String) → (workspace : ℕ) → TaskQuery → Result (Task → Bool)
  unfolding split status_text
  filter_of user role workspace q =
      let base : Task → Bool = λ t.
        not t.is_deleted
        && t.workspace == workspace
        && (str_eq role "admin" || t.owner == user)
        && where_given (non_empty q.status) (str_eq (status_text t.status))
        && where_given (non_empty q.search) (λ x. pipe.text_matches x t)
        && where_given (non_empty q.due_from)
            (λ x. on_date t.due_date (λ d. leb (pipe.parse_date x) d))
        && where_given (non_empty q.due_to)
            (λ x. on_date t.due_date (λ d. leb d (pipe.parse_date x)))
        && where_given (non_empty q.tags)
            (λ x. every (λ tag. any (str_eq tag) t.tags) (split comma x)) in
      elim (non_empty q.assignee) [
        | none ↦ ok base
        | some a ↦
            if str_eq a "me"
            then ok (λ t. base t && any (λ i. i == user) t.assignees)
            else elim (pipe.object_id a) [
              | none ↦ err bad_request
              | some id ↦ ok (λ t. base t && any (λ i. i == id) t.assignees)
            ]
      ]

  unfoldable pub after_cursor : Option ℕ → Row → Bool
  after_cursor none r = true
  after_cursor (some c) r = ltb c r.0

  -- The page of a query by cursor: one row more than asked for shows that there is a next page.
  unfoldable pub cursor_page : (Task → Bool) → (limit : ℕ) → Option ℕ → db.Store → Page
  unfolding matching limited pop last_id after_cursor
  cursor_page p limit cursor s =
      let found =
        limited (limit + 1)
          (pipe.sort by_id (matching (λ r. p r.1 && after_cursor cursor r) (pipe.documents s))) in
      if ltb limit (length found)
      then record { rows = pop found; meta = cursor_meta limit (last_id (pop found)) }
      else record { rows = found; meta = cursor_meta limit none }

  unfoldable pub offset_page : (Task → Bool) → TaskQuery → db.Store → Page
  unfolding matching limited skipped aggregate_sort pages_of
  offset_page p q s =
      let found = matching (λ r. p r.1) (pipe.documents s) in
      let total = length found in
      record {
        rows =
            limited q.limit (skipped ((q.page - 1) * q.limit) (pipe.sort (aggregate_sort q) found));
        meta = offset_meta total q.page q.limit (pages_of total q.limit);
      }

  -- From the database.
  unfoldable pub query_tasks : Key → db.Store → Result Page
  unfolding filter_of cursor_page offset_page
  query_tasks k s = elim (filter_of k.user k.role k.workspace k.query) [
    | err e ↦ err e
    | ok p ↦ elim k.query.pagination [
      | by_offset ↦ ok (offset_page p k.query s)
      | by_cursor ↦
          if is_some (non_empty k.query.sort)
            || not (str_eq k.query.sort_by "createdAt")
            || elim k.query.order [ ascending ↦ true | descending ↦ false ]
          then err bad_request
          else ok (cursor_page p k.query.limit k.query.cursor s)
    ]
  ]

  -- `enabled` is the feature flag for the workspace.
  unfoldable pub find_all :
      (cache : KeyedCache Key Page)
      → (enabled : Bool) → Key
      → db.Store
      → Tracked cache
      → Result Page × Tracked cache
  unfolding advanced_requested query_tasks
  find_all cache enabled k s lists =
      if advanced_requested k.query && not enabled
      then (err forbidden, lists)
      else elim (cache.get k lists.cached) [
        | some page ↦ (ok page, lists)
        | none ↦ elim (query_tasks k s) [
          | err e ↦ (err e, lists)
          | ok page ↦ (ok page, remember cache k page (60 * 1000) lists)
        ]
      ]

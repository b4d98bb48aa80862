-- ===== src/Tasks/Lists.antt =====
-- The query of src/task/DTO/get-task-query.dto.ts and the pages that `findAll` of
-- src/task/infrastructure/persistence/task.repository.ts answers with. The stages of the aggregation are the functions on lists that
-- they are documented to be; the joins of the owner and of the category keep each row, and are left
-- out. What the database and the language supply is the record `Pipeline`.
use task_manager_api.Prelude.{
  ℕ, zero, suc, ◌<◌, ◌≡◌, Bool, true, Option, none, some, List, [], ◌∷◌, length, All, any, String,
  if◌then◌else◌,
}
use task_manager_api.Platform.Collection.{Collection, has_id}
use task_manager_api.Tasks.{Task}

pub data Direction : Type 0 where
  ascending descending : Direction

pub data Pagination : Type 0 where
  by_offset by_cursor : Pagination

-- The query with its defaults filled in; with the caller it is the key of the cache.
pub record TaskQuery : Type 0 where
  pub page : ℕ
  pub limit : ℕ
  pub pagination : Pagination
  pub cursor : Option ℕ
  pub status : Option String
  pub search : Option String
  pub sort : Option String
  pub sort_by : String
  pub order : Direction
  pub due_from : Option String
  pub due_to : Option String
  pub tags : Option String
  pub assignee : Option String

pub record Key : Type 0 where
  pub user : ℕ
  pub role : String
  pub workspace : ℕ
  pub query : TaskQuery

abbrev pub Row : Type 0
Row = ℕ × Task

pub data PageMeta : Type 0 where
  cursor_meta : (limit : ℕ) → (next_cursor : Option ℕ) → PageMeta
  offset_meta : (total page limit total_pages : ℕ) → PageMeta

pub record Page : Type 0 where
  pub rows : List Row
  pub meta : PageMeta

abbrev pub SortSpec : Type 0
SortSpec = List (String × Direction)

abbrev pub by_id : SortSpec
by_id = ("_id", ascending) ∷ []

-- The ids go up from row to row.
abbrev pub IsAscending {ℓ} : {A : Type ℓ} → List (ℕ × A) → Type ℓ
IsAscending [] = Unit
IsAscending (r ∷ rs) = All (λ q. r.0 < q.0) rs × IsAscending rs

-- `documents` lists the collection by id; `sort` is `$sort`, `text_matches` is `$text`, `parse_date`
-- is `new Date` of a text, `object_id` is the id that a text spells, if any.
pub record Pipeline (db : Collection Task) : Type 0 where
  pub documents : db.Store → List Row
  pub sort : SortSpec → List Row → List Row
  pub text_matches : String → Task → Bool
  pub parse_date : String → ℕ
  pub object_id : String → Option ℕ
  pub documents_ascending : (s : db.Store) → IsAscending (documents s)
  pub documents_sound : (s : db.Store) → All (λ r. db.find_by_id r.0 s ≡ some r.1) (documents s)
  pub documents_complete :
      (s : db.Store) (i : ℕ) (t : Task)
      → db.find_by_id i s ≡ some t
      → any (has_id i) (documents s) ≡ true
  -- A list that is in the order asked for stays as it is, and a sort loses and adds nothing.
  pub sort_sorted : (rows : List Row) → IsAscending rows → sort by_id rows ≡ rows
  pub length-sort : (spec : SortSpec) (rows : List Row) → length (sort spec rows) ≡ length rows

-- The stages, and `pop` of an array.
unfoldable pub matching {ℓ} : {A : Type ℓ} → (A → Bool) → List A → List A
matching p [] = []
matching p (x ∷ xs) = let rest = matching p xs in if p x then x ∷ rest else rest

unfoldable pub limited {ℓ} : {A : Type ℓ} → ℕ → List A → List A
limited zero xs = []
limited (suc n) [] = []
limited (suc n) (x ∷ xs) = x ∷ limited n xs

unfoldable pub skipped {ℓ} : {A : Type ℓ} → ℕ → List A → List A
skipped zero xs = xs
skipped (suc n) [] = []
skipped (suc n) (x ∷ xs) = skipped n xs

unfoldable pub pop {ℓ} : {A : Type ℓ} → List A → List A
pop [] = []
pop (x ∷ []) = []
pop (x ∷ y ∷ ys) = x ∷ pop (y ∷ ys)

unfoldable pub last_id {ℓ} : {A : Type ℓ} → List (ℕ × A) → Option ℕ
last_id [] = none
last_id (r ∷ []) = some r.0
last_id (r ∷ q ∷ rs) = last_id (q ∷ rs)

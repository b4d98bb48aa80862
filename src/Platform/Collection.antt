-- ===== src/Platform/Collection.antt =====
-- A MongoDB collection through Mongoose, as the repositories use it: documents by their `_id`, a
-- filter as a test, an update as a function on the document. Each call is atomic on its document.
use task_manager_api.Prelude.{
  ℕ, ◌≤◌, ◌<◌, ◌≡◌, Bool, true, false, Option, none, some, List, length, All, any, ◌==◌,
  if◌then◌else◌,
}

-- The document that `findOneAndUpdate(filter, update, { new: true })` returns.
abbrev pub revised {ℓ} : {Doc : Type ℓ} → (Doc → Bool) → (Doc → Doc) → Option Doc → Option Doc
revised p u none = none
revised p u (some d) = if p d then some (u d) else none

-- The document that it leaves behind.
abbrev pub kept {ℓ} : {Doc : Type ℓ} → (Doc → Bool) → (Doc → Doc) → Option Doc → Option Doc
kept p u none = none
kept p u (some d) = if p d then some (u d) else some d

abbrev pub has_id {ℓ} : {Doc : Type ℓ} → ℕ → ℕ × Doc → Bool
has_id i (j, d) = i == j

pub record Collection (Doc : Type 0) : Type 1 where
  pub Store : Type 0
  pub find_by_id : ℕ → Store → Option Doc
  pub find_one : (Doc → Bool) → Store → Option (ℕ × Doc)
  -- `find(filter).sort({ key: 1 }).limit(n)`
  pub find : (Doc → Bool) → (Doc → ℕ) → ℕ → Store → List (ℕ × Doc)
  -- `find(filter)`
  pub find_where : (Doc → Bool) → Store → List (ℕ × Doc)
  pub insert : ℕ → Doc → Store → Store
  pub find_one_and_update : ℕ → (Doc → Bool) → (Doc → Doc) → Store → Option Doc × Store
  -- `findOneAndDelete({ _id })`
  pub find_one_and_delete : ℕ → Store → Option Doc × Store
  -- A new document is found under its own, fresh id, and no other document changes.
  pub find-insert :
      (i j : ℕ) (d : Doc) (s : Store)
      → find_by_id i s ≡ none
      → find_by_id j (insert i d s) ≡ (if i == j then some d else find_by_id j s)
  pub update_returns :
      (i : ℕ) (p : Doc → Bool) (u : Doc → Doc) (s : Store)
      → (find_one_and_update i p u s).0 ≡ revised p u (find_by_id i s)
  pub find-update :
      (i j : ℕ) (p : Doc → Bool) (u : Doc → Doc) (s : Store)
      → find_by_id j (find_one_and_update i p u s).1
        ≡ (if i == j then kept p u (find_by_id j s) else find_by_id j s)
  pub delete_returns : (i : ℕ) (s : Store) → (find_one_and_delete i s).0 ≡ find_by_id i s
  pub find-delete :
      (i j : ℕ) (s : Store)
      → find_by_id j (find_one_and_delete i s).1 ≡ (if i == j then none else find_by_id j s)
  pub find_one_sound :
      (p : Doc → Bool) (s : Store) (e : ℕ × Doc)
      → find_one p s ≡ some e
      → (find_by_id e.0 s ≡ some e.1) × (p e.1 ≡ true)
  pub find_one_complete :
      (p : Doc → Bool) (s : Store) (i : ℕ) (d : Doc)
      → find_one p s ≡ none
      → find_by_id i s ≡ some d
      → p d ≡ false
  pub find_sound :
      (p : Doc → Bool) (key : Doc → ℕ) (n : ℕ) (s : Store)
      → All (λ e. (find_by_id e.0 s ≡ some e.1) × (p e.1 ≡ true)) (find p key n s)
  pub find_bounded :
      (p : Doc → Bool) (key : Doc → ℕ) (n : ℕ) (s : Store) → length (find p key n s) ≤ n
  -- Only the limit keeps a matching document out.
  pub find_complete :
      (p : Doc → Bool) (key : Doc → ℕ) (n i : ℕ) (d : Doc) (s : Store)
      → find_by_id i s ≡ some d
      → p d ≡ true
      → length (find p key n s) < n
      → any (has_id i) (find p key n s) ≡ true
  pub find_where_sound :
      (p : Doc → Bool) (s : Store)
      → All (λ e. (find_by_id e.0 s ≡ some e.1) × (p e.1 ≡ true)) (find_where p s)
  pub find_where_complete :
      (p : Doc → Bool) (i : ℕ) (d : Doc) (s : Store)
      → find_by_id i s ≡ some d
      → p d ≡ true
      → any (has_id i) (find_where p s) ≡ true

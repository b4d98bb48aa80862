-- ===== src/Tasks/Cursor.antt =====
-- A client that follows `nextCursor` through the pages of `findAll`
-- (src/task/infrastructure/persistence/task.repository.ts) while no task is written.
use task_manager_api.Prelude.{
  ℕ, zero, suc, ◌≤◌, ◌<◌, ◌≡◌, refl, ap, sym, ◌∙◌, inl, inr, Bool, true, false, ◌&&◌, Option, none,
  some, List, [], ◌∷◌, arith, length, All, All-map, any, ◌==◌, ◌⊎◌, Bool-cases, Option-cases,
}
use task_manager_api.Tasks.{Task}
use task_manager_api.Tasks.Lists.{Row, IsAscending, Pipeline, matching}
use task_manager_api.Tasks.Listing.{after_cursor}
use task_manager_api.Tasks.Stages.{All-matching, All-matching-true, length-matching, any-matching}
use task_manager_api.Platform.Collection.{Collection, has_id}
use task_manager_api.Tasks.Walk.{walk, walk_lem, rest_from, IsAscending-rest}

module _ (db : Collection Task) (pipe : Pipeline db) where
  abbrev pub matches_in : (Task → Bool) → Option Task → Bool
  matches_in p none = false
  matches_in p (some t) = p t

  -- The rows of a walk through the pages: every matching task once, in the order of the ids.
  pub record Traversal (p : Task → Bool) (s : db.Store) (walked : Option (List Row)) : Type 0 where
    pub rows : List Row
    pub ends : walked ≡ some rows
    pub ascending_rows : IsAscending rows
    pub sound : All (λ r. (db.find_by_id r.0 s ≡ some r.1) × (p r.1 ≡ true)) rows
    pub shows : (i : ℕ) → any (has_id i) rows ≡ matches_in p (db.find_by_id i s)

  both :
      (p : Task → Bool) (s : db.Store) (rs : List Row)
      → All (λ r. db.find_by_id r.0 s ≡ some r.1) rs
      → All (λ r. (p r.1 && after_cursor db pipe none r) ≡ true) rs
      → All (λ r. (db.find_by_id r.0 s ≡ some r.1) × (p r.1 ≡ true)) rs
  both p s [] h m = tt
  both p s (r ∷ rs) (h, hs) (m, ms) = ((h, ground (arith, m)), both p s rs hs ms)

  kept :
      (p : Task → Bool) (s : db.Store) (i : ℕ) (t : Task) (r : Row)
      → db.find_by_id i s ≡ some t
      → p t ≡ true
      → db.find_by_id r.0 s ≡ some r.1
      → ((i == r.0) ≡ false) ⊎ ((p r.1 && after_cursor db pipe none r) ≡ true)
  unfolding after_cursor
  kept p s i t r found holds here = elim (Bool-cases (i == r.0)) [
    | inr other ↦ inl other
    | inl this ↦
        let at : r.0 ≡ i = ground arith in
        let same : r.1 ≡ t = ground (arith, here, found, ap (λ j. db.find_by_id j s) at) in
        inr (rw same (rw holds refl))
  ]

  -- A list of matching rows has no row of an id that is not stored with a match.
  not_shown :
      (p : Task → Bool) (s : db.Store) (i : ℕ) (rs : List Row)
      → matches_in p (db.find_by_id i s) ≡ false
      → All (λ r. (db.find_by_id r.0 s ≡ some r.1) × (p r.1 ≡ true)) rs
      → any (has_id i) rs ≡ false
  not_shown p s i [] h all = refl
  not_shown p s i (r ∷ rs) h ((here, holds), all) = elim (Bool-cases (i == r.0)) [
    | inr other ↦ rw other (not_shown p s i rs h all)
    | inl this ↦
        let at : i ≡ r.0 = ground arith in
        let match : matches_in p (db.find_by_id i s) ≡ true = rw (at, here) holds in
        absurd (ground (arith, h, match))
  ]

  shown :
      (p : Task → Bool) (s : db.Store) (i : ℕ) (rs : List Row)
      → ((t : Task) → db.find_by_id i s ≡ some t → p t ≡ true → any (has_id i) rs ≡ true)
      → All (λ r. (db.find_by_id r.0 s ≡ some r.1) × (p r.1 ≡ true)) rs
      → any (has_id i) rs ≡ matches_in p (db.find_by_id i s)
  shown p s i rs complete all = elim (Option-cases (db.find_by_id i s)) [
    | inl absent ↦
        let miss : matches_in p (db.find_by_id i s) ≡ false = rw absent refl in
        not_shown p s i rs miss all ∙ sym miss
    | inr (t, found) ↦ elim (Bool-cases (p t)) [
      | inl holds ↦ complete t found holds ∙ sym (rw (found, holds) refl)
      | inr fails ↦
          let miss : matches_in p (db.find_by_id i s) ≡ false = rw (found, fails) refl in
          not_shown p s i rs miss all ∙ sym miss
    ]
  ]

  -- Following the next cursor from the first page ends, within one page more than there are
  -- stored tasks, and has then shown every task that matches the filter exactly once, in the order of the
  -- ids, and nothing else. The limit is at least 1, and no task is written in between.
  pub walk-Traversal :
      (fuel : ℕ) (p : Task → Bool) (limit : ℕ) (s : db.Store)
      → 1 ≤ limit
      → length (pipe.documents s) < fuel
      → Traversal p s (walk db pipe fuel p limit none s)
  walk-Traversal fuel p zero s h enough = absurd (omega arith)
  walk-Traversal fuel p (suc n) s h enough =
      let filter : Row → Bool = λ r. p r.1 && after_cursor db pipe none r in
      let docs = pipe.documents s in
      let sound : All (λ r. (db.find_by_id r.0 s ≡ some r.1) × (p r.1 ≡ true))
          (rest_from db pipe p s none) =
        both p s (matching filter docs)
          (All-matching (λ r. db.find_by_id r.0 s ≡ some r.1) filter docs (pipe.documents_sound s))
          (All-matching-true filter docs) in
      record {
        rows = rest_from db pipe p s none;
        ends =
            walk_lem db pipe p s fuel n none (omega (arith, enough, length-matching filter docs));
        ascending_rows = IsAscending-rest db pipe p s none;
        sound = sound;
        shows = λ i.
            shown p s i (rest_from db pipe p s none)
              (λ t found holds.
                any-matching (has_id i) filter docs
                  (All-map (λ r here. kept p s i t r found holds here) docs
                    (pipe.documents_sound s))
                  (pipe.documents_complete s i t found))
              sound;
      }

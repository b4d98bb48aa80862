-- ===== src/Tasks/Walk.antt =====
-- The pages of `findAll` (src/task/infrastructure/persistence/task.repository.ts) one after another,
-- by the rows that each leaves for the next.
use task_manager_api.Prelude.{
  ℕ, zero, suc, ◌+◌, ◌≤◌, ◌<◌, ◌≡◌, refl, ap, sym, ◌∙◌, inl, inr, Bool, true, false, ◌&&◌, Option,
  none, some, List, ◌++◌, arith, length, All, All-map, Bool-cases, ltb,
}
use task_manager_api.Tasks.{Task}
use task_manager_api.Tasks.Lists.{
  Row, Page, cursor_meta, offset_meta, IsAscending, Pipeline, matching, limited, skipped, last_id,
}
use task_manager_api.Tasks.Listing.{after_cursor, cursor_page}
use task_manager_api.Tasks.Stages.{
  matching-cong, matching-matching, All-true, All-matching-true, limited-skipped, limited_all,
  length-limited, length-skipped, pop-limited, All-last_id, All-limited, last_id-some,
  IsAscending-matching, matching_after,
}
use task_manager_api.Platform.Collection.{Collection}

module _ (db : Collection Task) (pipe : Pipeline db) where
  abbrev next_of : Page → Option ℕ
  next_of page = elim page.meta [ cursor_meta limit next ↦ next | offset_meta _ _ _ _ ↦ none ]

  -- The rows of the pages from a cursor on, or `none` where the fuel is used up before the last page.
  unfoldable pub walk :
      (fuel : ℕ) → (Task → Bool) → (limit : ℕ) → Option ℕ → db.Store → Option (List Row)
  walk zero p limit cursor s = none
  walk (suc fuel) p limit cursor s =
      let page = cursor_page db pipe p limit cursor s in
      elim (next_of page) [
        | none ↦ some page.rows
        | some c ↦ elim (walk fuel p limit (some c) s) [
          | none ↦ none
          | some rest ↦ some (page.rows ++ rest)
        ]
      ]

  module _ (p : Task → Bool) (s : db.Store) where
    abbrev pub rest_from : Option ℕ → List Row
    rest_from cursor = matching (λ r. p r.1 && after_cursor db pipe cursor r) (pipe.documents s)

    pub IsAscending-rest : (cursor : Option ℕ) → IsAscending (rest_from cursor)
    IsAscending-rest cursor =
        IsAscending-matching (λ r. p r.1 && after_cursor db pipe cursor r) (pipe.documents s)
          (pipe.documents_ascending s)

    after_rest :
        (cursor : Option ℕ) → All (λ r. after_cursor db pipe cursor r ≡ true) (rest_from cursor)
    after_rest cursor =
        All-map (λ r h. ground (arith, h)) (rest_from cursor)
          (All-matching-true (λ r. p r.1 && after_cursor db pipe cursor r) (pipe.documents s))

    -- A cursor that is itself after another leaves out less.
    abbrev IsAfter : Option ℕ → ℕ → Type 0
    IsAfter none c = Unit
    IsAfter (some b) c = b < c

    above_both :
        (cursor : Option ℕ) (c : ℕ) (r : Row)
        → IsAfter cursor c
        → ((p r.1 && after_cursor db pipe cursor r) && ltb c r.0)
          ≡ (p r.1 && after_cursor db pipe (some c) r)
    unfolding after_cursor
    above_both none c r h = ground arith
    above_both (some b) c r h = ground (arith, h)

    next_rest :
        (cursor : Option ℕ) (c n : ℕ)
        → IsAfter cursor c
        → last_id (limited (suc n) (rest_from cursor)) ≡ some c
        → rest_from (some c) ≡ skipped (suc n) (rest_from cursor)
    next_rest cursor c n later last =
        sym (
          matching-cong _ _ (pipe.documents s)
            (All-true (λ r. above_both cursor c r later) (pipe.documents s)))
        ∙ sym (
            matching-matching (λ r. p r.1 && after_cursor db pipe cursor r) (λ r. ltb c r.0)
              (pipe.documents s))
        ∙ matching_after n (rest_from cursor) c (IsAscending-rest cursor) last

    last-IsAfter :
        (cursor : Option ℕ) (c n : ℕ)
        → last_id (limited (suc n) (rest_from cursor)) ≡ some c
        → IsAfter cursor c
    unfolding after_cursor
    last-IsAfter none c n last = tt
    last-IsAfter (some b) c n last =
        All-last_id (λ i. b < i) (limited (suc n) (rest_from (some b))) c
          (All-limited (λ r. b < r.0) (suc n) (rest_from (some b))
            (All-map (λ r h. ground (arith, h)) (rest_from (some b)) (after_rest (some b))))
          last

    -- A page, by the rows that are left.
    record IsPage (n : ℕ) (cursor : Option ℕ) (page : Page) : Type 0 where
      last_page :
          length (rest_from cursor) ≤ suc n → (page.rows ≡ rest_from cursor) × (next_of page ≡ none)
      inner_page :
          suc n < length (rest_from cursor)
          → (page.rows ≡ limited (suc n) (rest_from cursor))
            × (next_of page ≡ last_id (limited (suc n) (rest_from cursor)))

    cursor_page-IsPage :
        (n : ℕ) (cursor : Option ℕ) → IsPage n cursor (cursor_page db pipe p (suc n) cursor s)
    unfolding cursor_page
    cursor_page-IsPage n cursor =
        let rs = rest_from cursor in
        let one_more : suc n + 1 ≡ suc (suc n) = omega arith in
        let sorted = pipe.sort_sorted rs (IsAscending-rest cursor) in
        record {
          last_page = λ h.
              let test : ltb (suc n) (length rs) ≡ false = ground (arith, h) in
              rw (one_more, sorted, limited_all (suc (suc n)) rs (omega arith), test, cursor_page)
                (refl, refl);
          inner_page = λ h.
              let full = length-limited (suc (suc n)) rs (omega arith) in
              let test : ltb (suc n) (length (limited (suc (suc n)) rs)) ≡ true =
                ground (arith, full) in
              rw (one_more, sorted, test, cursor_page)
                (rw (pop-limited (suc n) rs (omega (arith, full))) (refl, refl));
        }

    pub walk_lem :
        (fuel n : ℕ) (cursor : Option ℕ)
        → length (rest_from cursor) < fuel
        → walk fuel p (suc n) cursor s ≡ some (rest_from cursor)
    unfolding walk
    walk_lem zero n cursor h = absurd (omega arith)
    walk_lem (suc fuel) n cursor h =
        let page = cursor_page-IsPage n cursor in
        elim (Bool-cases (ltb (suc n) (length (rest_from cursor)))) [
          | inr short ↦
              let (rows, end) = page.last_page (ground (arith, short)) in rw (end, rows, walk) refl
          | inl long ↦
              let more : suc n < length (rest_from cursor) = ground (arith, long) in
              let (rows, next) = page.inner_page more in
              let (c, last) = last_id-some n (rest_from cursor) (omega (arith, more)) in
              let rest = next_rest cursor c n (last-IsAfter cursor c n last) last in
              let walked =
                walk_lem fuel n (some c)
                  (rw rest (omega (arith, more, h, length-skipped (suc n) (rest_from cursor)))) in
              rw (next, last, walked, rows, rest, walk)
                (ap some (limited-skipped (suc n) (rest_from cursor)))
        ]

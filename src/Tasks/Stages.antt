-- ===== src/Tasks/Stages.antt =====
-- The stages of the aggregation in src/task/infrastructure/persistence/task.repository.ts, as
-- functions on lists.
use task_manager_api.Prelude.{
  ℕ, zero, suc, ◌-◌, ◌≤◌, ◌<◌, ◌≡◌, refl, ap, subst, ◌⊎◌, inl, inr, Bool, true, false, ◌&&◌, some,
  List, [], ◌∷◌, ◌++◌, arith, length, All, All-map, any, Bool-cases, ltb,
}
use task_manager_api.Tasks.Lists.{matching, limited, skipped, pop, last_id, IsAscending}

module _ {A : Type 0} where
  pub matching-cong :
      (p q : A → Bool) (xs : List A) → All (λ x. p x ≡ q x) xs → matching p xs ≡ matching q xs
  unfolding matching
  matching-cong p q [] h = refl
  matching-cong p q (x ∷ xs) (e, h) = rw (e, matching-cong p q xs h) refl

  pub All-true {κ} : {P : A → Type κ} → ((x : A) → P x) → (xs : List A) → All P xs
  All-true f [] = tt
  All-true f (x ∷ xs) = (f x, All-true f xs)

  pub matching-matching :
      (p q : A → Bool) (xs : List A) → matching q (matching p xs) ≡ matching (λ x. p x && q x) xs
  unfolding matching
  matching-matching p q [] = refl
  matching-matching p q (x ∷ xs) = ground (arith, matching-matching p q xs)

  pub All-matching {κ} :
      (P : A → Type κ) (p : A → Bool) (xs : List A) → All P xs → All P (matching p xs)
  unfolding matching
  All-matching P p [] h = tt
  All-matching P p (x ∷ xs) (h, hs) = elim (Bool-cases (p x)) [
    | inl e ↦ rw e (h, All-matching P p xs hs)
    | inr e ↦ rw e (All-matching P p xs hs)
  ]

  pub All-matching-true : (p : A → Bool) (xs : List A) → All (λ x. p x ≡ true) (matching p xs)
  unfolding matching
  All-matching-true p [] = tt
  All-matching-true p (x ∷ xs) = elim (Bool-cases (p x)) [
    | inl e ↦ rw e (e, All-matching-true p xs)
    | inr e ↦ rw e (All-matching-true p xs)
  ]

  pub length-matching : (p : A → Bool) (xs : List A) → length (matching p xs) ≤ length xs
  unfolding matching
  length-matching p [] = omega arith
  length-matching p (x ∷ xs) = ground (arith, length-matching p xs)

  -- A row that is there and matches is among the matching rows.
  pub any-matching :
      (q p : A → Bool) (xs : List A)
      → All (λ x. (q x ≡ false) ⊎ (p x ≡ true)) xs
      → any q xs ≡ true
      → any q (matching p xs) ≡ true
  unfolding matching
  any-matching q p [] h e = e
  any-matching q p (x ∷ xs) (inr kept, h) e = elim (Bool-cases (q x)) [
    | inl this ↦ rw (kept, this) refl
    | inr other ↦ rw (kept, other) (any-matching q p xs h (rw other at e))
  ]
  any-matching q p (x ∷ xs) (inl other, h) e =
      let later = any-matching q p xs h (rw other at e) in
      elim (Bool-cases (p x)) [ inl kept ↦ rw (kept, other) later | inr dropped ↦ rw dropped later ]

  pub matching-All : (p : A → Bool) (xs : List A) → All (λ x. p x ≡ true) xs → matching p xs ≡ xs
  unfolding matching
  matching-All p [] h = refl
  matching-All p (x ∷ xs) (e, h) = rw (e, matching-All p xs h) refl

  pub limited-skipped : (n : ℕ) (xs : List A) → limited n xs ++ skipped n xs ≡ xs
  unfolding limited skipped
  limited-skipped zero xs = refl
  limited-skipped (suc n) [] = refl
  limited-skipped (suc n) (x ∷ xs) = ap (λ ys. x ∷ ys) (limited-skipped n xs)

  pub limited_all : (n : ℕ) (xs : List A) → length xs ≤ n → limited n xs ≡ xs
  unfolding limited
  limited_all zero [] h = refl
  limited_all zero (x ∷ xs) h = absurd (omega arith)
  limited_all (suc n) [] h = refl
  limited_all (suc n) (x ∷ xs) h = ap (λ ys. x ∷ ys) (limited_all n xs (omega arith))

  pub length-limited : (n : ℕ) (xs : List A) → n ≤ length xs → length (limited n xs) ≡ n
  unfolding limited
  length-limited zero xs h = refl
  length-limited (suc n) [] h = absurd (omega arith)
  length-limited (suc n) (x ∷ xs) h = ap suc (length-limited n xs (omega arith))

  pub length-skipped : (n : ℕ) (xs : List A) → length (skipped n xs) ≡ length xs - n
  unfolding skipped
  length-skipped zero xs = omega arith
  length-skipped (suc n) [] = omega arith
  length-skipped (suc n) (x ∷ xs) = omega (arith, length-skipped n xs)

  pub pop-limited :
      (n : ℕ) (xs : List A)
      → n < length (limited (suc n) xs)
      → pop (limited (suc n) xs) ≡ limited n xs
  unfolding pop limited
  pop-limited n [] h = absurd (omega arith)
  pop-limited zero (x ∷ []) h = refl
  pop-limited zero (x ∷ y ∷ ys) h = refl
  pop-limited (suc n) (x ∷ []) h = absurd (omega arith)
  pop-limited (suc n) (x ∷ y ∷ ys) h = ap (λ zs. x ∷ zs) (pop-limited n (y ∷ ys) (omega arith))

module _ {A : Type 0} where
  pub All-last_id {κ} :
      (P : ℕ → Type κ) (rs : List (ℕ × A)) (c : ℕ) → All (λ r. P r.0) rs → last_id rs ≡ some c → P c
  unfolding last_id
  All-last_id P [] c h e = cc
  All-last_id P (r ∷ []) c h e = let same : r.0 ≡ c = ground (arith, e) in subst P same h.0
  All-last_id P (r ∷ q ∷ rs) c h e = All-last_id P (q ∷ rs) c h.1 e

  pub All-limited {κ} :
      (P : ℕ × A → Type κ) (n : ℕ) (rs : List (ℕ × A)) → All P rs → All P (limited n rs)
  unfolding limited
  All-limited P zero rs h = tt
  All-limited P (suc n) [] h = tt
  All-limited P (suc n) (r ∷ rs) h = (h.0, All-limited P n rs h.1)

  pub last_id-some :
      (n : ℕ) (rs : List (ℕ × A))
      → n < length rs
      → (c : ℕ) × (last_id (limited (suc n) rs) ≡ some c)
  unfolding last_id limited
  last_id-some n [] h = absurd (omega arith)
  last_id-some zero (r ∷ rs) h = (r.0, refl)
  last_id-some (suc n) (r ∷ []) h = absurd (omega arith)
  last_id-some (suc n) (r ∷ q ∷ rs) h = last_id-some n (q ∷ rs) (omega arith)

  pub IsAscending-matching :
      (p : ℕ × A → Bool) (rs : List (ℕ × A)) → IsAscending rs → IsAscending (matching p rs)
  unfolding matching
  IsAscending-matching p [] h = tt
  IsAscending-matching p (r ∷ rs) (h, hs) = elim (Bool-cases (p r)) [
    | inl e ↦ rw e (All-matching (λ q. r.0 < q.0) p rs h, IsAscending-matching p rs hs)
    | inr e ↦ rw e (IsAscending-matching p rs hs)
  ]

  -- The rows after the last row of a first part are the rest.
  pub matching_after :
      (n : ℕ) (rs : List (ℕ × A)) (c : ℕ)
      → IsAscending rs
      → last_id (limited (suc n) rs) ≡ some c
      → matching (λ r. ltb c r.0) rs ≡ skipped (suc n) rs
  unfolding matching limited skipped last_id
  matching_after n [] c h e = cc
  matching_after zero (r ∷ rs) c (h, hs) e =
      let same : r.0 ≡ c = ground (arith, e) in
      let out : ltb c r.0 ≡ false = ground (arith, same) in
      rw out (matching-All (λ q. ltb c q.0) rs (All-map (λ q later. above q later same) rs h))
    where
      above : (q : ℕ × A) → r.0 < q.0 → r.0 ≡ c → ltb c q.0 ≡ true
      above q later same = ground (arith, later, same)
  matching_after (suc n) (r ∷ []) c (h, hs) e =
      let same : r.0 ≡ c = ground (arith, e) in
      let out : ltb c r.0 ≡ false = ground (arith, same) in rw out refl
  matching_after (suc n) (r ∷ q ∷ rs) c (h, hs) e =
      let later =
        All-last_id (λ i. r.0 < i) (limited (suc n) (q ∷ rs)) c
          (All-limited (λ x. r.0 < x.0) (suc n) (q ∷ rs) h) e in
      let out : ltb c r.0 ≡ false = ground (arith, later) in
      rw out (matching_after n (q ∷ rs) c hs e)

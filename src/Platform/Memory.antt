-- ===== src/Platform/Memory.antt =====
-- A collection in memory, at which the examples run: the laws of the interface can hold. The
-- document with id i stands at position i.
use task_manager_api.Prelude.{
  ℕ, zero, suc, ◌+◌, ◌-◌, ◌≤◌, ◌<◌, ◌≡◌, refl, inl, inr, Bool, true, false, Option, none, some,
  List, [], ◌∷◌, arith, length, All, All-map, any, ◌==◌, if◌then◌else◌, Bool-cases,
}
use task_manager_api.Platform.Collection.{Collection, revised, kept, has_id}

module _ {Doc : Type 0} where
  abbrev pub get : ℕ → List (Option Doc) → Option Doc
  get i [] = none
  get zero (o ∷ s) = o
  get (suc i) (o ∷ s) = get i s

  abbrev pub put : ℕ → Doc → List (Option Doc) → List (Option Doc)
  put zero d [] = some d ∷ []
  put zero d (o ∷ s) = some d ∷ s
  put (suc i) d [] = none ∷ put i d []
  put (suc i) d (o ∷ s) = o ∷ put i d s

  abbrev pub change : ℕ → (Doc → Bool) → (Doc → Doc) → List (Option Doc) → List (Option Doc)
  change i p u [] = []
  change zero p u (o ∷ s) = kept p u o ∷ s
  change (suc i) p u (o ∷ s) = o ∷ change i p u s

  abbrev pub remove : ℕ → List (Option Doc) → List (Option Doc)
  remove i [] = []
  remove zero (o ∷ s) = none ∷ s
  remove (suc i) (o ∷ s) = o ∷ remove i s

  -- The matching documents, the first of them at position k.
  abbrev pub scan : ℕ → (Doc → Bool) → List (Option Doc) → List (ℕ × Doc)
  scan k p [] = []
  scan k p (none ∷ s) = scan (suc k) p s
  scan k p (some d ∷ s) = let rest = scan (suc k) p s in if p d then (k, d) ∷ rest else rest

  pub get-put :
      (i j : ℕ) (d : Doc) (s : List (Option Doc))
      → get j (put i d s) ≡ (if i == j then some d else get j s)
  get-put zero zero d [] = refl
  get-put zero (suc j) d [] = ground arith
  get-put zero zero d (o ∷ s) = refl
  get-put zero (suc j) d (o ∷ s) = ground arith
  get-put (suc i) zero d [] = ground arith
  get-put (suc i) (suc j) d [] = ground (arith, get-put i j d [])
  get-put (suc i) zero d (o ∷ s) = ground arith
  get-put (suc i) (suc j) d (o ∷ s) = ground (arith, get-put i j d s)

  pub get-change :
      (i j : ℕ) (p : Doc → Bool) (u : Doc → Doc) (s : List (Option Doc))
      → get j (change i p u s) ≡ (if i == j then kept p u (get j s) else get j s)
  get-change i j p u [] = ground arith
  get-change zero zero p u (o ∷ s) = refl
  get-change zero (suc j) p u (o ∷ s) = ground arith
  get-change (suc i) zero p u (o ∷ s) = ground arith
  get-change (suc i) (suc j) p u (o ∷ s) = ground (arith, get-change i j p u s)

  pub get-remove :
      (i j : ℕ) (s : List (Option Doc)) → get j (remove i s) ≡ (if i == j then none else get j s)
  get-remove i j [] = ground arith
  get-remove zero zero (o ∷ s) = refl
  get-remove zero (suc j) (o ∷ s) = ground arith
  get-remove (suc i) zero (o ∷ s) = ground arith
  get-remove (suc i) (suc j) (o ∷ s) = ground (arith, get-remove i j s)

  abbrev pub Found : ℕ → (Doc → Bool) → List (Option Doc) → ℕ × Doc → Type 0
  Found k p s e = (k ≤ e.0) × (get (e.0 - k) s ≡ some e.1) × (p e.1 ≡ true)

  Found-cons :
      (k : ℕ) (p : Doc → Bool) (o : Option Doc) (s : List (Option Doc)) (e : ℕ × Doc)
      → Found (suc k) p s e
      → Found k p (o ∷ s) e
  Found-cons k p o s (i, d) (h, g, m) =
      let e : i - k ≡ suc (i - suc k) = omega arith in (omega arith, rw e g, m)

  pub scan_sound : (k : ℕ) (p : Doc → Bool) (s : List (Option Doc)) → All (Found k p s) (scan k p s)
  scan_sound k p [] = tt
  scan_sound k p (none ∷ s) =
      All-map (Found-cons k p none s) (scan (suc k) p s) (scan_sound (suc k) p s)
  scan_sound k p (some d ∷ s) =
      let later = All-map (Found-cons k p (some d) s) (scan (suc k) p s) (scan_sound (suc k) p s) in
      elim (Bool-cases (p d)) [
        | inl e ↦ let z : k - k ≡ 0 = omega arith in rw e ((omega arith, rw z refl, e), later)
        | inr e ↦ rw e later
      ]

  pub scan_complete :
      (k : ℕ) (p : Doc → Bool) (i : ℕ) (d : Doc) (s : List (Option Doc))
      → get i s ≡ some d
      → p d ≡ true
      → any (has_id (k + i)) (scan k p s) ≡ true
  scan_complete k p i d [] h m = ground arith
  scan_complete k p zero d (none ∷ s) h m = ground arith
  scan_complete k p zero d (some c ∷ s) h m = ground arith
  scan_complete k p (suc i) d (none ∷ s) h m =
      let e : k + suc i ≡ suc k + i = omega arith in rw e (scan_complete (suc k) p i d s h m)
  scan_complete k p (suc i) d (some c ∷ s) h m =
      let e : k + suc i ≡ suc k + i = omega arith in
      rw e (ground (arith, scan_complete (suc k) p i d s h m))

module _ {A : Type 0} where
  abbrev pub take : ℕ → List A → List A
  take zero xs = []
  take (suc n) [] = []
  take (suc n) (x ∷ xs) = x ∷ take n xs

  abbrev pub first : List A → Option A
  first [] = none
  first (x ∷ xs) = some x

  pub length-take-le : (n : ℕ) (xs : List A) → length (take n xs) ≤ n
  length-take-le zero xs = omega arith
  length-take-le (suc n) [] = omega arith
  length-take-le (suc n) (x ∷ xs) = omega (arith, length-take-le n xs)

  pub take_all : (n : ℕ) (xs : List A) → length (take n xs) < n → take n xs ≡ xs
  take_all zero xs h = elim h [ ]
  take_all (suc n) [] h = refl
  take_all (suc n) (x ∷ xs) h = rw (take_all n xs (omega arith))

  pub All-take {κ} : (P : A → Type κ) (n : ℕ) (xs : List A) → All P xs → All P (take n xs)
  All-take P zero xs h = tt
  All-take P (suc n) [] h = tt
  All-take P (suc n) (x ∷ xs) h = (h.0, All-take P n xs h.1)

module _ {Doc : Type 0} where
  pub at_zero :
      (p : Doc → Bool) (s : List (Option Doc)) (e : ℕ × Doc)
      → Found 0 p s e
      → (get e.0 s ≡ some e.1) × (p e.1 ≡ true)
  at_zero p s (i, d) (h, g, m) = let z : i - 0 ≡ i = omega arith in (rw z at g, m)

  pub first_sound :
      (p : Doc → Bool) (s : List (Option Doc)) (xs : List (ℕ × Doc)) (e : ℕ × Doc)
      → All (Found 0 p s) xs
      → first xs ≡ some e
      → (get e.0 s ≡ some e.1) × (p e.1 ≡ true)
  first_sound p s [] e h q = cc
  first_sound p s (x ∷ xs) e h q =
      let same : x ≡ e = ground arith in rw (← same) (at_zero p s x h.0)

  pub first_complete :
      (p : Doc → Bool) (s : List (Option Doc)) (i : ℕ) (d : Doc)
      → first (scan 0 p s) ≡ none
      → get i s ≡ some d
      → p d ≡ false
  first_complete p s i d h g = elim (Bool-cases (p d)) [
    | inl m ↦ absurd (clash (scan 0 p s) h (scan_complete 0 p i d s g m))
    | inr m ↦ m
  ]
    where
      clash : (xs : List (ℕ × Doc)) → first xs ≡ none → any (has_id (0 + i)) xs ≡ true → ⊥
      clash [] a b = cc
      clash (x ∷ xs) a b = cc

abbrev pub memory : (Doc : Type 0) → Collection Doc
memory Doc = record {
  Store = List (Option Doc);
  find_by_id = get;
  find_one = λ p s. first (scan 0 p s);
  find = λ p key n s. take n (scan 0 p s);
  find_where = scan 0;
  insert = put;
  find_one_and_update = λ i p u s. (revised p u (get i s), change i p u s);
  find_one_and_delete = λ i s. (get i s, remove i s);
  delete_returns = λ i s. refl;
  find-delete = get-remove;
  find-insert = λ i j d s h. get-put i j d s;
  update_returns = λ i p u s. refl;
  find-update = λ i j p u s. get-change i j p u s;
  find_one_sound = λ p s e h. first_sound p s (scan 0 p s) e (scan_sound 0 p s) h;
  find_one_complete = λ p s i d h g. first_complete p s i d h g;
  find_sound = λ p key n s.
      All-map (at_zero p s) (take n (scan 0 p s)) (All-take _ n (scan 0 p s) (scan_sound 0 p s));
  find_bounded = λ p key n s. length-take-le n (scan 0 p s);
  find_complete = λ p key n i d s h m lt.
      let z : 0 + i ≡ i = omega arith in
      rw (take_all n (scan 0 p s) lt) (rw z at (scan_complete 0 p i d s h m));
  find_where_sound = λ p s. All-map (at_zero p s) (scan 0 p s) (scan_sound 0 p s);
  find_where_complete =
      λ p i d s h m. let z : 0 + i ≡ i = omega arith in rw z at (scan_complete 0 p i d s h m);
}

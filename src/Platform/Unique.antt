-- ===== src/Platform/Unique.antt =====
-- A document that is alone in matching a filter is the one that `findOne` gives: what a unique index
-- lets the repositories rely on.
use task_manager_api.Prelude.{
  ℕ, ◌≡◌, inl, inr, ap, Bool, true, none, some, sym, ◌∙◌, arith, Option-cases,
}
use task_manager_api.Platform.Collection.{Collection}

module _ {Doc : Type 0} (db : Collection Doc) where
  pub find_one_alone :
      (p : Doc → Bool) (s : db.Store) (id : ℕ) (d : Doc)
      → db.find_by_id id s ≡ some d
      → p d ≡ true
      → ((j : ℕ) (e : Doc) → db.find_by_id j s ≡ some e → p e ≡ true → j ≡ id)
      → db.find_one p s ≡ some (id, d)
  find_one_alone p s id d here match_d alone = elim (Option-cases (db.find_one p s)) [
    | inl nobody ↦ absurd (ground (arith, db.find_one_complete p s id d nobody here))
    | inr ((j, e), one) ↦
        let (stored, match_e) = db.find_one_sound p s (j, e) one in
        let same = alone j e stored match_e in
        ground (arith, one, same, stored, here, ap (λ k. db.find_by_id k s) same)
  ]

  -- At most one document matches.
  abbrev pub IsAlone : (Doc → Bool) → db.Store → Type 0
  IsAlone p s =
      (i j : ℕ) (d e : Doc)
      → db.find_by_id i s ≡ some d
      → db.find_by_id j s ≡ some e
      → p d ≡ true
      → p e ≡ true
      → i ≡ j

  pub find_one_missing :
      (p : Doc → Bool) (s : db.Store)
      → ((j : ℕ) (e : Doc) → db.find_by_id j s ≡ some e → p e ≡ true → ⊥)
      → db.find_one p s ≡ none
  find_one_missing p s nothing = elim (Option-cases (db.find_one p s)) [
    | inl nobody ↦ nobody
    | inr ((j, e), one) ↦
        let (stored, match_e) = db.find_one_sound p s (j, e) one in
        absurd (nothing j e stored match_e)
  ]

  -- Two stores with the same matching documents give the same one.
  pub find_one_same :
      (p : Doc → Bool) (s t : db.Store)
      → IsAlone p t
      → ((j : ℕ) (e : Doc) → p e ≡ true → db.find_by_id j s ≡ some e → db.find_by_id j t ≡ some e)
      → ((j : ℕ) (e : Doc) → p e ≡ true → db.find_by_id j t ≡ some e → db.find_by_id j s ≡ some e)
      → db.find_one p t ≡ db.find_one p s
  find_one_same p s t alone to from = elim (Option-cases (db.find_one p s)) [
    | inl nobody ↦
        find_one_missing p t (λ j e here match_e.
          absurd (ground (arith, db.find_one_complete p s j e nobody (from j e match_e here))))
        ∙ sym nobody
    | inr ((i, d), one) ↦
        let (stored, match_d) = db.find_one_sound p s (i, d) one in
        find_one_alone p t i d (to i d match_d stored) match_d
          (λ j e here match_e. alone j i e d here (to i d match_d stored) match_e match_d)
        ∙ sym one
  ]

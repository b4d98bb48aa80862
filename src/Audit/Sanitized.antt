-- ===== src/Audit/Sanitized.antt =====
-- What the cleaning of an audit entry guarantees.
use task_manager_api.Prelude.{◌≡◌, refl, true, false, some, List, [], ◌∷◌, String, arith}
use task_manager_api.Audit.{MetaValue, Meta, Entry, redacted, is_sensitive, sanitize, log}

module _ (to_lower : String → String) where
  -- An entry of `meta` beside what is kept of it: the key, and the value unless the key is
  -- sensitive.
  abbrev pub Kept : String × MetaValue → String × MetaValue → Type 0
  Kept x y =
      (y.0 ≡ x.0)
      × (is_sensitive to_lower x.0 ≡ true → y.1 ≡ redacted)
      × (is_sensitive to_lower x.0 ≡ false → y.1 ≡ x.1)

  abbrev pub AllKept : Meta → Meta → Type 0
  AllKept [] [] = Unit
  AllKept (x ∷ m) (y ∷ n) = Kept x y × AllKept m n
  AllKept [] (y ∷ n) = ⊥
  AllKept (x ∷ m) [] = ⊥

  sanitize-AllKept : (m : Meta) → AllKept m (sanitize to_lower m)
  unfolding sanitize
  sanitize-AllKept [] = tt
  sanitize-AllKept ((key, value) ∷ m) =
      ((refl, λ h. ground arith, λ h. ground arith), sanitize-AllKept m)

  -- Writing an entry adds one entry to the trail, with every value under a sensitive key replaced
  -- and all the other values, and the order of the keys, as given.
  pub log_keeps :
      (e : Entry) (m : Meta) (trail : List Entry)
      → e.meta ≡ some m
      → (n : Meta) × (log to_lower e trail ≡ record e { meta = some n } ∷ trail) × AllKept m n
  unfolding log
  log_keeps e m trail h = (sanitize to_lower m, rw (h, log), sanitize-AllKept m)

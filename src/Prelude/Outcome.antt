-- ===== src/Prelude/Outcome.antt =====
-- What an asynchronous handler gives back: a value, or the HTTP exception that it throws.
use mathlib.Core.Path.{◌≡◌, refl}
use mathlib.Core.Logic.{◌⊎◌, inl, inr}

-- The exception classes of the framework that the handlers throw, by their status.
pub data Exception : Type 0 where
  bad_request unauthorized forbidden not_found conflict precondition_failed : Exception
  precondition_required too_many_requests internal_error : Exception

pub data Result {ℓ} (A : Type ℓ) : Type ℓ where
  ok : A → Result A
  err : Exception → Result A

pub Result-cases {ℓ} :
    {A : Type ℓ} (r : Result A) → ((a : A) × (r ≡ ok a)) ⊎ ((e : Exception) × (r ≡ err e))
Result-cases (ok a) = inl (a, refl)
Result-cases (err e) = inr (e, refl)

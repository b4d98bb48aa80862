-- ===== src/Prelude/Decisions.antt =====
-- Decisions of equality.
use Prim.Native.String.{String}
use mathlib.Core.Logic.{inl, inr}
use native.Mathlib.Omega.{arith}
use text.Mathlib.Text.{◌==◌ as str_eq}
use text.Mathlib.TextEquality.{eq_iff}
use task_manager_api.Prelude.Tests.{Bool-cases}

pub String-discrete : Discrete String
String-discrete a b = elim (Bool-cases (str_eq a b)) [
  | inl e ↦ yes (ground (arith, eq_iff a b, e))
  | inr e ↦ no (λ same. absurd (ground (arith, eq_iff a b, e, same)))
]

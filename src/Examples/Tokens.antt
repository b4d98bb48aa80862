-- ===== src/Examples/Tokens.antt =====
-- A stand-in for signed tokens: the claims written as text and read back, so that the laws of the
-- parameters can hold.
use Prim.Native.Char.{code}
use Prim.Native.String.{String, [], ◌∷◌}
use task_manager_api.Prelude.{ℕ, zero, suc, ◌≡◌, refl, Option, none, some, ◌==◌, if◌then◌else◌}
use task_manager_api.Auth.{RefreshClaims}

abbrev pub put_sub : ℕ → String → String
put_sub zero s = "b" ∷ s
put_sub (suc n) s = "a" ∷ put_sub n s

abbrev pub put_family : String → String → String
put_family [] s = "b" ∷ "b" ∷ s
put_family (c ∷ f) s = "a" ∷ c ∷ put_family f s

abbrev pub get_sub : String → Option (ℕ × String)
get_sub [] = none
get_sub (c ∷ s) =
    let rest = get_sub s in
    if code c == 98 then some (0, s) else elim rest [ none ↦ none | some (n, t) ↦ some (suc n, t) ]

abbrev pub get_family : String → Option (String × String)
get_family [] = none
get_family (c ∷ []) = none
get_family (c ∷ (d ∷ s)) =
    let rest = get_family s in
    if code c == 98 then some ([], s) else elim rest [ none ↦ none | some (f, t) ↦ some (d ∷ f, t) ]

pub get-put_sub : (n : ℕ) (s : String) → get_sub (put_sub n s) ≡ some (n, s)
get-put_sub zero s = refl
get-put_sub (suc n) s = rw (get-put_sub n s)

pub get-put_family : (f s : String) → get_family (put_family f s) ≡ some (f, s)
get-put_family [] s = refl
get-put_family (c ∷ f) s = rw (get-put_family f s)

abbrev pub sign : RefreshClaims → String
sign c = put_sub c.sub (put_family c.family c.jti)

abbrev pub read : String → Option RefreshClaims
read t = elim (get_sub t) [
  | none ↦ none
  | some (n, s) ↦ elim (get_family s) [
    | none ↦ none
    | some (f, j) ↦ some (record { sub = n; family = f; jti = j })
  ]
]

pub read-sign : (c : RefreshClaims) → read (sign c) ≡ some c
read-sign c =
    rw (get-put_sub c.sub (put_family c.family c.jti), read)
      (rw (get-put_family c.family c.jti, read) refl)

-- ===== src/Platform/KeyedMemory.antt =====
-- A cache in memory for keys that are compared by a decision, at which the examples run.
use task_manager_api.Prelude.{◌≡◌, refl, ◌≢◌, Option, none, some}
use task_manager_api.Platform.KeyedCache.{KeyedCache}

module _ {K V : Type 0} (key_eq : Discrete K) where
  abbrev pub update : K → Option V → (K → Option V) → K → Option V
  update k o s j = elim (key_eq k j) [ yes _ ↦ o | no _ ↦ s j ]

  pub update_self : (k : K) (o : Option V) (s : K → Option V) → update k o s k ≡ o
  update_self k o s = elim (key_eq k k) as (λ d. (elim d [ yes _ ↦ o | no _ ↦ s k ]) ≡ o) [
    | yes _ ↦ refl
    | no other ↦ absurd (other refl)
  ]

  pub update_ne : (k j : K) (o : Option V) (s : K → Option V) → k ≢ j → update k o s j ≡ s j
  update_ne k j o s other = elim (key_eq k j) as (λ d. (elim d [ yes _ ↦ o | no _ ↦ s j ]) ≡ s j) [
    | yes same ↦ absurd (other same)
    | no _ ↦ refl
  ]

  abbrev pub memory : KeyedCache K V
  memory = record {
    Store = K → Option V;
    get = λ k s. s k;
    set = λ k v t s. update k (some v) s;
    del = λ k s. update k none s;
    get-set_self = λ k v t s. update_self k (some v) s;
    get-set_ne = λ k j v t s other. update_ne k j (some v) s other;
    get-del_self = λ k s. update_self k none s;
    get-del_ne = λ k j s other. update_ne k j none s other;
  }

-- ===== src/Platform/Cache.antt =====
-- The cache manager, for one family of keys that differ by a number (`user:<id>`). The laws speak
-- of calls with no time between them.
use task_manager_api.Prelude.{ℕ, ◌≡◌, Option, none, some, ◌==◌, if◌then◌else◌}

pub record Cache (V : Type 0) : Type 1 where
  pub Store : Type 0
  pub get : ℕ → Store → Option V
  pub set : ℕ → V → ℕ → Store → Store
  pub del : ℕ → Store → Store
  pub get-set :
      (k j : ℕ) (v : V) (t : ℕ) (s : Store)
      → get j (set k v t s) ≡ (if k == j then some v else get j s)
  pub get-del : (k j : ℕ) (s : Store) → get j (del k s) ≡ (if k == j then none else get j s)

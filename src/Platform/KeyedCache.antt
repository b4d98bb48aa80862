-- ===== src/Platform/KeyedCache.antt =====
-- The cache manager for keys that are texts with parameters in them (`membership:<w>:<u>`): a key
-- is the tuple of its parameters. The laws speak of calls with no time between them.
use task_manager_api.Prelude.{ℕ, ◌≡◌, ◌≢◌, Option, none, some}

pub record KeyedCache (K V : Type 0) : Type 1 where
  pub Store : Type 0
  pub get : K → Store → Option V
  pub set : K → V → ℕ → Store → Store
  pub del : K → Store → Store
  pub get-set_self : (k : K) (v : V) (t : ℕ) (s : Store) → get k (set k v t s) ≡ some v
  pub get-set_ne : (k j : K) (v : V) (t : ℕ) (s : Store) → k ≢ j → get j (set k v t s) ≡ get j s
  pub get-del_self : (k : K) (s : Store) → get k (del k s) ≡ none
  pub get-del_ne : (k j : K) (s : Store) → k ≢ j → get j (del k s) ≡ get j s

-- ===== src/Platform/CacheMemory.antt =====
-- A cache in memory, at which the examples run: a function from the keys.
use task_manager_api.Prelude.{ℕ, refl, Option, none, some, ◌==◌, if◌then◌else◌}
use task_manager_api.Platform.Cache.{Cache}

abbrev pub memory : (V : Type 0) → Cache V
memory V = record {
  Store = ℕ → Option V;
  get = λ k s. s k;
  set = λ k v t s j. if k == j then some v else s j;
  del = λ k s j. if k == j then none else s j;
  get-set = λ k j v t s. refl;
  get-del = λ k j s. refl;
}

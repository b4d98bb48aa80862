-- ===== src/Examples/Users.antt =====
-- The repository of users with a collection and caches in memory.
use task_manager_api.Prelude.{◌≡◌, none, some, List, [], ◌∷◌, arith}
use task_manager_api.Platform.Collection.{Collection}
use task_manager_api.Platform.Memory
use task_manager_api.Platform.Cache.{Cache}
use task_manager_api.Platform.CacheMemory
use task_manager_api.Users.{User, new_user}
use task_manager_api.Users.Repository.{Found, Users, find_by_id}
use task_manager_api.Users.Coherence.{
  finds, updates_password, here, after, after_call, lookup, find_by_id-lookup,
}

abbrev Db : Collection User
Db = Memory.memory User

abbrev user_cache : Cache User
user_cache = CacheMemory.memory User

abbrev list_cache : Cache (List Found)
list_cache = CacheMemory.memory (List Found)

abbrev ann : User
ann = new_user "ann@example.com" "hash" "digest" 900

abbrev cold : Users Db user_cache list_cache
cold = record { docs = some ann ∷ []; cached = λ k. none; cached_list = λ k. none }

-- Fill the cache, then change the password: the lookup does not answer from the old entry.
abbrev changed : Users Db user_cache list_cache
changed =
    after Db user_cache list_cache (updates_password 0 "other")
      (after Db user_cache list_cache (finds 0) cold)

find_by_id-lookup_example :
    (find_by_id Db user_cache list_cache 0 changed).0 ≡ lookup Db user_cache list_cache 0 changed
find_by_id-lookup_example =
    find_by_id-lookup Db user_cache list_cache 0 cold changed (λ id u h. absurd (ground arith))
      (after_call (updates_password 0 "other") tt (after_call (finds 0) tt here))

-- ===== src/Examples/Workspaces.antt =====
-- Workspaces with collections and caches in memory.
use task_manager_api.Prelude.{ℕ, ◌≡◌, none, List, [], ◌∷◌}
use task_manager_api.Platform.Collection.{Collection}
use task_manager_api.Platform.Memory
use task_manager_api.Platform.KeyedCache.{KeyedCache}
use task_manager_api.Platform.KeyedMemory
use task_manager_api.Authorization.{viewer, admin}
use task_manager_api.Workspaces.{Membership}
use task_manager_api.Workspaces.Memberships.{Member, ListKey, Memberships}
use task_manager_api.Workspaces.Refinement.{
  Pair-discrete, ListKey-discrete, Call, creates, asks_one, asks_workspace, calls, all_specified,
  IsCoherent, calls-all_specified,
}

abbrev db : Collection Membership
db = Memory.memory Membership

abbrev cache : KeyedCache (ℕ × ℕ) Member
cache = KeyedMemory.memory Pair-discrete

abbrev list_cache : KeyedCache ListKey (List Member)
list_cache = KeyedMemory.memory ListKey-discrete

abbrev empty : Memberships db cache list_cache
empty = record {
  docs = [];
  one = record { cached = λ k. none; keys = [] };
  many = record { cached = λ k. none; keys = [] };
}

empty-IsCoherent : IsCoherent db cache list_cache empty
empty-IsCoherent = record {
  fresh_one = record { tracked = λ k v e. cc; current = λ k v e. cc };
  fresh_many = record { tracked = λ k v e. cc; current = λ k v e. cc };
}

-- A list is read before and after a member is added, and the second answer has the member.
abbrev asked : List Call
asked =
    creates 1 7 admin 0
    ∷ asks_workspace 1
    ∷ creates 1 8 viewer 1
    ∷ asks_workspace 1
    ∷ asks_one 1 8
    ∷ creates 1 8 admin 2
    ∷ []

calls-all_specified_example :
    ((calls db cache list_cache asked empty).0 ≡ (all_specified db cache list_cache asked []).0)
    × ((calls db cache list_cache asked empty).1.docs
        ≡ (all_specified db cache list_cache asked []).1)
    × IsCoherent db cache list_cache (calls db cache list_cache asked empty).1
calls-all_specified_example = calls-all_specified db cache list_cache asked empty empty-IsCoherent

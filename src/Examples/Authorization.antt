-- ===== src/Examples/Authorization.antt =====
-- The authorization rules with CASL as its documented rule, and the guard on two requests.
use task_manager_api.Prelude.{
  ℕ, ◌≡◌, refl, true, Option, none, some, List, [], ◌∷◌, String, arith, ◌&&◌,
}
use task_manager_api.Authorization.{
  Casl, Rule, TaskAbilitySubject, create, task, member, admin, create_for_role, last_allows,
  is_about, meets,
}
use task_manager_api.Authorization.Policies.{Request, update_task_policy}
use task_manager_api.Authorization.Guard.{
  Membership, active, non_empty, workspace_of, can_activate, check_workspace, check_member,
  check_policies,
}
use task_manager_api.Authorization.Roles.{role_order}
use task_manager_api.Authorization.Tasks.{passes, task_route, Asks, update_task_guard}
use task_manager_api.Authorization.Admission.{PassedAs, Loaded, admitted_is_member}

abbrev casl : Casl
casl = record {
  Ability = List Rule;
  build = λ rs. rs;
  can_some = λ rs a s. last_allows (is_about a s) rs;
  can_task = λ rs a t. last_allows (λ r. is_about a task r && meets t r.condition) rs;
  can_some-build = λ rs a s. refl;
  can_task-build = λ rs a t. refl;
}

role_order_example : casl.can_some (casl.build (create_for_role (some admin) 7)) create task ≡ true
role_order_example = role_order casl member admin 7 create task (omega arith) refl

abbrev shared : TaskAbilitySubject
shared = record { owner = 3; assignees = 5 ∷ 7 ∷ [] }

abbrev find_task : Option String → String → Option TaskAbilitySubject
find_task id workspace_id = some shared

abbrev ann : Membership
ann = record { role = some member; status = active }

abbrev find_membership : String → String → Option Membership
find_membership workspace_id user_id = some ann

abbrev object_id : String → ℕ
object_id t = 7

abbrev request : Request casl
request = record {
  user_id = some "ann";
  params_workspace_id = none;
  query_workspace_id = some "w";
  body_workspace_id = none;
  params_id = some "t";
  loaded_task = none;
  ability = none;
}

asks : Asks casl find_task find_membership object_id request "w" "ann" shared ann
asks = record {
  signed_in = refl;
  in_workspace = refl;
  on_task = refl;
  is_member = refl;
  is_active = refl;
}

update_task_guard_example :
    passes (
      can_activate casl find_task find_membership object_id
        (task_route casl find_task find_membership object_id (update_task_policy casl))
        request)
    ≡ true
update_task_guard_example =
    update_task_guard casl find_task find_membership object_id request "w" "ann" shared ann asks

abbrev seen : Request casl
seen = record request {
  loaded_task = some shared;
  ability = some (create_for_role (some member) 7);
}

admitted_is_member_example :
    (w u : String) × (non_empty (workspace_of casl request) ≡ some w)
    × (non_empty request.user_id ≡ some u)
    × (t : Option TaskAbilitySubject) × Loaded casl find_task find_membership object_id
        (task_route casl find_task find_membership object_id (update_task_policy casl))
        w
        request
        t
    × PassedAs casl find_task find_membership object_id
        (update_task_policy casl ∷ [])
        w
        u
        (record request { loaded_task = t })
        seen
unfolding can_activate check_workspace check_member check_policies
admitted_is_member_example =
    admitted_is_member casl find_task find_membership object_id
      (task_route casl find_task find_membership object_id (update_task_policy casl)) request seen
      (λ h. absurd (ground arith)) refl refl

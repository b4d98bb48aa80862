-- ===== src/Authorization/Tasks.antt =====
-- Who passes the guard of the routes on one task, and of every route of a workspace.
use task_manager_api.Prelude.{
  ℕ, ◌≡◌, refl, ◌∙◌, Bool, true, false, Option, none, some, [], ◌∷◌, String, arith, any, ◌||◌, ◌&&◌,
  ◌==◌, Result, ok, err,
}
use task_manager_api.Authorization.{
  Casl, WorkspaceRole, TaskAbilitySubject, update, delete, task, owner, admin, member, viewer,
  create_for_role, last_allows, is_about, meets,
}
use task_manager_api.Authorization.Policies.{
  Request, PolicyHandler, update_task_policy, delete_task_policy,
}
use task_manager_api.Authorization.Guard.{
  Membership, active, Metadata, non_empty, workspace_of, check_policies, check_member,
  check_workspace, can_activate,
}

-- An owner and an admin change every task, a member those that are theirs or given to them.
abbrev pub may_update : Option WorkspaceRole → TaskAbilitySubject → ℕ → Bool
may_update (some owner) t id = true
may_update (some admin) t id = true
may_update (some member) t id = t.owner == id || any (λ a. a == id) t.assignees
may_update (some viewer) t id = false
may_update none t id = false

abbrev pub may_delete : Option WorkspaceRole → Bool
may_delete (some owner) = true
may_delete (some admin) = true
may_delete (some member) = false
may_delete (some viewer) = false
may_delete none = false

updates_allowed :
    (r : Option WorkspaceRole) (t : TaskAbilitySubject) (id : ℕ)
    → last_allows (λ q. is_about update task q && meets t q.condition) (create_for_role r id)
      ≡ may_update r t id
updates_allowed (some owner) t id = refl
updates_allowed (some admin) t id = refl
updates_allowed (some member) t id = ground arith
updates_allowed (some viewer) t id = refl
updates_allowed none t id = refl

deletes_allowed :
    (r : Option WorkspaceRole) (t : TaskAbilitySubject) (id : ℕ)
    → last_allows (λ q. is_about delete task q && meets t q.condition) (create_for_role r id)
      ≡ may_delete r
deletes_allowed (some owner) t id = refl
deletes_allowed (some admin) t id = refl
deletes_allowed (some member) t id = refl
deletes_allowed (some viewer) t id = refl
deletes_allowed none t id = refl

abbrev pub passes {ℓ} : {A : Type ℓ} → Result A → Bool
passes (ok a) = true
passes (err e) = false

module _ (casl : Casl) (find_task : Option String → String → Option TaskAbilitySubject)
    (find_membership : String → String → Option Membership) (object_id : String → ℕ) where
  abbrev guard : Metadata casl → Request casl → Result (Request casl)
  guard = can_activate casl find_task find_membership object_id

  -- A route with one policy that loads its task.
  abbrev pub task_route : PolicyHandler casl → Metadata casl
  task_route p = record { handlers = p ∷ []; is_global_policy = false; load_task = true }

  -- A request on a task, of an active member of the task's workspace.
  pub record Asks (r : Request casl) (w u : String) (t : TaskAbilitySubject) (m : Membership)
      : Type 0 where
    pub signed_in : non_empty r.user_id ≡ some u
    pub in_workspace : non_empty (workspace_of casl r) ≡ some w
    pub on_task : find_task r.params_id w ≡ some t
    pub is_member : find_membership w u ≡ some m
    pub is_active : m.status ≡ active

  module _ (r : Request casl) (w u : String) (t : TaskAbilitySubject) (m : Membership)
      (asks : Asks r w u t m) where
    task_route_lem :
        (p : PolicyHandler casl)
        → passes (guard (task_route p) r)
          ≡ p
              (casl.build (create_for_role m.role (object_id u)))
              (record r { loaded_task = some t })
    unfolding can_activate check_workspace check_member check_policies
    task_route_lem p =
        ground
          (arith, asks.signed_in, asks.in_workspace, asks.on_task, asks.is_member, asks.is_active)

    -- An active member passes the guard of a task's update exactly as an owner or an admin of the
    -- workspace, or as a member that owns the task or is one of its assignees.
    pub update_task_guard :
        passes (guard (task_route (update_task_policy casl)) r) ≡ may_update m.role t (object_id u)
    update_task_guard =
        task_route_lem (update_task_policy casl)
        ∙ casl.can_task-build (create_for_role m.role (object_id u)) update t
        ∙ updates_allowed m.role t (object_id u)

    -- An active member passes the guard of a task's deletion exactly as an owner or an admin of the
    -- workspace.
    pub delete_task_guard :
        passes (guard (task_route (delete_task_policy casl)) r) ≡ may_delete m.role
    delete_task_guard =
        task_route_lem (delete_task_policy casl)
        ∙ casl.can_task-build (create_for_role m.role (object_id u)) delete t
        ∙ deletes_allowed m.role t (object_id u)

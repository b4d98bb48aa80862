-- ===== src/Authorization/Guard.antt =====
-- src/common/authorization/policies.guard.ts. The metadata that the route's decorators set
-- (check-policies.decorator.ts) is an argument. The guard reads the two repositories through their
-- interfaces: two lookups, by the ids as texts. `object_id` is `new Types.ObjectId`.
use task_manager_api.Prelude.{
  ℕ, Bool, Option, none, some, List, [], ◌∷◌, String, every, if◌then◌else◌, Result, ok, err,
  forbidden,
}
use task_manager_api.Authorization.{
  Casl, WorkspaceRole, TaskAbilitySubject, create_for_user, create_for_role,
}
use task_manager_api.Authorization.Policies.{Request, PolicyHandler}

pub data MembershipStatus : Type 0 where
  active inactive : MembershipStatus

pub record Membership : Type 0 where
  pub role : Option WorkspaceRole
  pub status : MembershipStatus

-- `a ?? b`
abbrev otherwise : Option String → Option String → Option String
otherwise none b = b
otherwise (some a) b = some a

-- The text that is neither missing nor empty.
abbrev pub non_empty : Option String → Option String
non_empty none = none
non_empty (some String.[]) = none
non_empty (some (String.◌∷◌ c s)) = some (String.◌∷◌ c s)

module _ (casl : Casl) where
  pub record Metadata : Type 0 where
    pub handlers : List (PolicyHandler casl)
    pub is_global_policy : Bool
    pub load_task : Bool

  abbrev pub workspace_of : Request casl → Option String
  workspace_of r =
      otherwise r.params_workspace_id
        (otherwise r.query_workspace_id (otherwise r.body_workspace_id r.params_id))

  -- The policies of the route, asked with an ability; `request.ability` is set where all agree.
  unfoldable pub check_policies :
      List (PolicyHandler casl) → casl.Ability → Request casl → Result (Request casl)
  check_policies handlers ability r =
      if every (λ handler. handler ability r) handlers
      then ok (record r { ability = some ability })
      else err forbidden

  module _ (find_task : Option String → String → Option TaskAbilitySubject)
      (find_membership : String → String → Option Membership) (object_id : String → ℕ) where
    -- From the membership on.
    unfoldable pub check_member : Metadata → String → String → Request casl → Result (Request casl)
    check_member meta workspace_id user_id r = elim (find_membership workspace_id user_id) [
      | none ↦ err forbidden
      | some m ↦ elim m.status [
        | inactive ↦ err forbidden
        | active ↦
            check_policies meta.handlers (casl.build (create_for_role m.role (object_id user_id))) r
      ]
    ]

    -- From the workspace on: the task is loaded where the route asks for it.
    unfoldable pub check_workspace :
        Metadata → String → String → Request casl → Result (Request casl)
    unfolding check_member
    check_workspace meta workspace_id user_id r =
        if meta.load_task
        then elim (find_task r.params_id workspace_id) [
          | none ↦ err forbidden
          | some t ↦ check_member meta workspace_id user_id (record r { loaded_task = some t })
        ]
        else check_member meta workspace_id user_id r

    -- The request that the route's handler sees, where the guard lets it pass.
    unfoldable pub can_activate : Metadata → Request casl → Result (Request casl)
    unfolding check_workspace check_policies
    can_activate meta r = elim meta.handlers [
      | [] ↦ ok r
      | _ ∷ _ ↦ elim (non_empty r.user_id) [
        | none ↦ err forbidden
        | some user_id ↦
            if meta.is_global_policy
            then check_policies meta.handlers (casl.build create_for_user) r
            else elim (non_empty (workspace_of r)) [
              | none ↦ err forbidden
              | some workspace_id ↦ check_workspace meta workspace_id user_id r
            ]
      ]
    ]

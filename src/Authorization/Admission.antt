-- ===== src/Authorization/Admission.antt =====
-- What stands behind a request that the guard lets pass to a route of a workspace.
use task_manager_api.Prelude.{
  ℕ, ◌≡◌, refl, ◌≢◌, ◌⊎◌, inl, inr, true, false, Option, some, List, [], ◌∷◌, String, arith, ok,
  Option-cases, Bool-cases, every,
}
use task_manager_api.Authorization.{Casl, TaskAbilitySubject, create_for_role}
use task_manager_api.Authorization.Policies.{Request, PolicyHandler}
use task_manager_api.Authorization.Guard.{
  Membership, active, Metadata, non_empty, workspace_of, check_policies, check_member,
  check_workspace, can_activate,
}

module _ (casl : Casl) (find_task : Option String → String → Option TaskAbilitySubject)
    (find_membership : String → String → Option Membership) (object_id : String → ℕ) where
  -- The member that a request passed as, and what the policies were shown.
  pub record PassedAs (handlers : List (PolicyHandler casl)) (w u : String) (q r' : Request casl)
      : Type 0 where
    pub membership : Membership
    pub is_member : find_membership w u ≡ some membership
    pub is_active : membership.status ≡ active
    pub agreed :
        every
          (λ handler. handler (casl.build (create_for_role membership.role (object_id u))) q)
          handlers
        ≡ true
    pub answer :
        r'
        ≡ record q { ability = some (casl.build (create_for_role membership.role (object_id u))) }

  check_policies_ok :
      (hs : List (PolicyHandler casl)) (ab : casl.Ability) (q r' : Request casl)
      → check_policies casl hs ab q ≡ ok r'
      → (every (λ handler. handler ab q) hs ≡ true) × (r' ≡ record q { ability = some ab })
  unfolding check_policies
  check_policies_ok hs ab q r' h = elim (Bool-cases (every (λ handler. handler ab q) hs)) [
    | inl all ↦ (all, ground arith)
    | inr other ↦ absurd (ground arith)
  ]

  check_member_ok :
      (meta : Metadata casl) (w u : String) (q r' : Request casl)
      → check_member casl find_task find_membership object_id meta w u q ≡ ok r'
      → PassedAs meta.handlers w u q r'
  unfolding check_member
  check_member_ok meta w u q r' h = elim (Option-cases (find_membership w u)) [
    | inl nobody ↦ absurd (ground arith)
    | inr (m, here) ↦
        let up = is_up m here in
        let (agreed, answer) =
          check_policies_ok meta.handlers (casl.build (create_for_role m.role (object_id u))) q r'
            (ground (arith, here, up)) in
        record {
          membership = m;
          is_member = here;
          is_active = up;
          agreed = agreed;
          answer = answer;
        }
  ]
    where
      is_up : (m : Membership) → find_membership w u ≡ some m → m.status ≡ active
      is_up m here = ground arith

  -- The task that the handler and the policies see: that of the path's id in the workspace where the
  -- route loads one, or what the request had.
  abbrev pub Loaded : Metadata casl → String → Request casl → Option TaskAbilitySubject → Type 0
  Loaded meta w r t =
      ((meta.load_task ≡ true)
        × (task : TaskAbilitySubject) × (t ≡ some task)
        × (find_task r.params_id w ≡ some task))
      ⊎ ((meta.load_task ≡ false) × (t ≡ r.loaded_task))

  check_workspace_ok :
      (meta : Metadata casl) (w u : String) (q r' : Request casl)
      → check_workspace casl find_task find_membership object_id meta w u q ≡ ok r'
      → (t : Option TaskAbilitySubject) × Loaded meta w q t
        × PassedAs meta.handlers w u (record q { loaded_task = t }) r'
  unfolding check_workspace
  check_workspace_ok meta w u q r' h = elim (Bool-cases meta.load_task) [
    | inl loads ↦ elim (Option-cases (find_task q.params_id w)) [
      | inl nothing ↦ absurd (ground arith)
      | inr (t, here) ↦ (
        some t,
        inl (loads, t, refl, here),
        check_member_ok meta w u (record q { loaded_task = some t }) r'
            (ground (arith, loads, here)),
      )
    ]
    | inr plain ↦
        (q.loaded_task, inr (plain, refl), check_member_ok meta w u q r' (ground (arith, plain)))
  ]

  list_cases :
      (hs : List (PolicyHandler casl))
      → hs ≢ []
      → (p : PolicyHandler casl) × (ps : List (PolicyHandler casl)) × (hs ≡ p ∷ ps)
  list_cases [] h = absurd (h refl)
  list_cases (p ∷ ps) h = (p, ps, refl)

  -- The request that a route of a workspace looks at.
  workspace_route :
      (meta : Metadata casl) (r r' : Request casl)
      → meta.handlers ≢ []
      → meta.is_global_policy ≡ false
      → can_activate casl find_task find_membership object_id meta r ≡ ok r'
      → (w u : String) × (non_empty (workspace_of casl r) ≡ some w)
        × (non_empty r.user_id ≡ some u)
        × (check_workspace casl find_task find_membership object_id meta w u r ≡ ok r')
  unfolding can_activate
  workspace_route meta r r' some_policy local h =
      let (p, ps, hs) = list_cases meta.handlers some_policy in
      elim (Option-cases (non_empty r.user_id)) [
        | inl nobody ↦ absurd (ground (arith, hs))
        | inr (u, user) ↦ elim (Option-cases (non_empty (workspace_of casl r))) [
          | inl nowhere ↦ absurd (ground (arith, hs))
          | inr (w, place) ↦ (w, u, place, user, ground (arith, hs))
        ]
      ]

  -- A request passes the guard of a workspace's route with at least one policy only as an active
  -- member of the workspace that it names, where every policy agreed with the ability of the
  -- member's role. Where the route loads a task, there is one with the id of the path in that
  -- workspace; the policies and the handler see the request with it, and with that ability added.
  pub admitted_is_member :
      (meta : Metadata casl) (r r' : Request casl)
      → meta.handlers ≢ []
      → meta.is_global_policy ≡ false
      → can_activate casl find_task find_membership object_id meta r ≡ ok r'
      → (w u : String) × (non_empty (workspace_of casl r) ≡ some w)
        × (non_empty r.user_id ≡ some u)
        × (t : Option TaskAbilitySubject) × Loaded meta w r t
        × PassedAs meta.handlers w u (record r { loaded_task = t }) r'
  admitted_is_member meta r r' some_policy local h =
      let (w, u, place, user, checked) = workspace_route meta r r' some_policy local h in
      let (t, loaded, passed) = check_workspace_ok meta w u r r' checked in
      (w, u, place, user, t, loaded, passed)

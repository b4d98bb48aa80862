-- ===== src/Workspaces/Members.antt =====
-- src/workspace/application/commands: add-member and create-workspace. A creation is no transaction:
-- a call that fails leaves what the calls before it have written.
use task_manager_api.Prelude.{
  ℕ, none, some, [], ◌∷◌, String, if◌then◌else◌, Result, ok, err, bad_request, not_found, forbidden,
  conflict,
}
use task_manager_api.Audit
use task_manager_api.Authorization.{WorkspaceRole, owner}
use task_manager_api.Workspaces.Memberships.{Member}
use task_manager_api.Workspaces.Repository
use task_manager_api.Workspaces.Flags
use task_manager_api.Workspaces.Settings
use task_manager_api.Workspaces.World.{
  WorkspaceEnv, WorkspaceWorld, role_text, is_owner, audit, find_workspace, find_member,
  create_member,
}

-- The fresh ids of a creation.
pub record FreshIds : Type 0 where
  pub workspace : ℕ
  pub membership : ℕ
  pub flags : ℕ
  pub settings : ℕ

module _ (env : WorkspaceEnv) where
  unfoldable pub add_member :
      (workspace user : ℕ)
      → WorkspaceRole
      → (actor fresh : ℕ) → WorkspaceWorld env
      → Result Member × WorkspaceWorld env
  unfolding find_workspace find_member create_member audit role_text
  add_member workspace user role actor fresh w =
      let (found, w1) = find_workspace env workspace w in
      elim found [
        | none ↦ (err not_found, w1)
        | some _ ↦
            let (membership, w2) = find_member env workspace actor w1 in
            elim membership [
              | none ↦ (err forbidden, w2)
              | some _ ↦
                  if is_owner role
                  then (err bad_request, w2)
                  else (let (existing, w3) = find_member env workspace user w2 in
                      elim existing [
                        | some _ ↦ (err conflict, w3)
                        | none ↦
                            let (made, w4) = create_member env workspace user role fresh w3 in
                            elim made [
                              | err e ↦ (err e, w4)
                              | ok m ↦ (
                                ok m,
                                audit env actor "MEMBER_ADDED" "MEMBERSHIP" workspace
                                    (some (
                                      ("memberId", Audit.id user)
                                      ∷ ("role", Audit.text (role_text role))
                                      ∷ []))
                                    w4,
                              )
                            ]
                      ])
            ]
      ]

  -- From the membership of the owner on.
  unfoldable pub furnish :
      Repository.Found
      → (owner_id : ℕ) → FreshIds
      → WorkspaceWorld env
      → Result Repository.Found × WorkspaceWorld env
  unfolding create_member Flags.create_default_configuration Settings.create_default_settings audit
  furnish made owner_id fresh w =
      let (membership, w1) = create_member env made.0 owner_id owner fresh.membership w in
      elim membership [
        | err e ↦ (err e, w1)
        | ok _ ↦
            let (flags, flag_docs) =
              Flags.create_default_configuration env.flags made.0 fresh.flags w1.flags in
            let w2 = record w1 { flags = flag_docs } in
            elim flags [
              | err e ↦ (err e, w2)
              | ok _ ↦
                  let (settings, setting_docs) =
                    Settings.create_default_settings env.settings made.0 fresh.settings
                      w2.settings in
                  let w3 = record w2 { settings = setting_docs } in
                  elim settings [
                    | err e ↦ (err e, w3)
                    | ok _ ↦
                        (ok made, audit env owner_id "WORKSPACE_CREATED" "WORKSPACE" made.0 none w3)
                  ]
            ]
      ]

  unfoldable pub create_workspace :
      (name slug : String)
      → (owner_id : ℕ) → FreshIds
      → WorkspaceWorld env
      → Result Repository.Found × WorkspaceWorld env
  unfolding Repository.find_by_slug Repository.create furnish
  create_workspace name slug owner_id fresh w =
      let (existing, workspaces) =
        Repository.find_by_slug env.trim env.normal_slug env.sorted env.workspaces
          env.workspace_cache env.workspace_list_cache slug w.workspaces in
      let w1 = record w { workspaces = workspaces } in
      elim existing [
        | some _ ↦ (err conflict, w1)
        | none ↦
            let (made, workspaces1) =
              Repository.create env.trim env.normal_slug env.sorted env.workspaces
                env.workspace_cache env.workspace_list_cache name slug owner_id fresh.workspace
                w1.workspaces in
            let w2 = record w1 { workspaces = workspaces1 } in
            elim made [ err e ↦ (err e, w2) | ok found ↦ furnish found owner_id fresh w2 ]
      ]

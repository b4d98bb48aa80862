-- ===== src/Authorization/Policies.antt =====
-- src/common/authorization/policies: the policy of each route, and the request that a policy reads.
use task_manager_api.Prelude.{Bool, false, Option, none, some, String}
use task_manager_api.Authorization.{
  Casl, TaskAbilitySubject, manage, create, read, update, delete, workspace, task, member,
  invitation, comment, attachment, webhook, audit_log, export,
}

module _ (casl : Casl) where
  -- Of a request: the signed-in user, the places where a workspace is named, and what the guard adds.
  pub record Request : Type 0 where
    pub user_id : Option String
    pub params_workspace_id : Option String
    pub query_workspace_id : Option String
    pub body_workspace_id : Option String
    pub params_id : Option String
    pub loaded_task : Option TaskAbilitySubject
    pub ability : Option casl.Ability

  abbrev pub PolicyHandler : Type 0
  PolicyHandler = casl.Ability → Request → Bool

  abbrev pub assign_task_policy : PolicyHandler
  assign_task_policy ability r = casl.can_some ability update task

  abbrev pub create_comment_policy : PolicyHandler
  create_comment_policy ability r = casl.can_some ability create comment

  abbrev pub create_export_policy : PolicyHandler
  create_export_policy ability r = casl.can_some ability create export

  abbrev pub create_task_policy : PolicyHandler
  create_task_policy ability r = casl.can_some ability create task

  abbrev pub create_workspace_policy : PolicyHandler
  create_workspace_policy ability r = casl.can_some ability create workspace

  abbrev pub delete_task_policy : PolicyHandler
  delete_task_policy ability r = elim r.loaded_task [
    | none ↦ false
    | some t ↦ casl.can_task ability delete t
  ]

  abbrev pub download_export_policy : PolicyHandler
  download_export_policy ability r = casl.can_some ability read export

  abbrev pub manage_attachment_policy : PolicyHandler
  manage_attachment_policy ability r = casl.can_some ability manage attachment

  abbrev pub manage_feature_flags_policy : PolicyHandler
  manage_feature_flags_policy ability r = casl.can_some ability manage workspace

  abbrev pub manage_invitation_policy : PolicyHandler
  manage_invitation_policy ability r = casl.can_some ability manage invitation

  abbrev pub manage_member_policy : PolicyHandler
  manage_member_policy ability r = casl.can_some ability manage member

  abbrev pub manage_webhook_policy : PolicyHandler
  manage_webhook_policy ability r = casl.can_some ability manage webhook

  abbrev pub read_attachment_policy : PolicyHandler
  read_attachment_policy ability r = casl.can_some ability read attachment

  abbrev pub read_audit_log_policy : PolicyHandler
  read_audit_log_policy ability r = casl.can_some ability read audit_log

  abbrev pub read_comment_policy : PolicyHandler
  read_comment_policy ability r = casl.can_some ability read comment

  abbrev pub read_export_policy : PolicyHandler
  read_export_policy ability r = casl.can_some ability read export

  abbrev pub read_member_policy : PolicyHandler
  read_member_policy ability r = casl.can_some ability read member

  abbrev pub read_task_policy : PolicyHandler
  read_task_policy ability r = casl.can_some ability read task

  abbrev pub read_workspace_policy : PolicyHandler
  read_workspace_policy ability r = casl.can_some ability read workspace

  abbrev pub update_task_policy : PolicyHandler
  update_task_policy ability r = elim r.loaded_task [
    | none ↦ false
    | some t ↦ casl.can_task ability update t
  ]

  abbrev pub update_workspace_settings_policy : PolicyHandler
  update_workspace_settings_policy ability r = casl.can_some ability manage workspace

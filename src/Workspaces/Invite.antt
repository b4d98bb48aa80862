-- ===== src/Workspaces/Invite.antt =====
-- src/workspace/application/commands: create-invitation, accept-invitation and decline-invitation. The
-- transaction of an acceptance is rolled back where one of its calls fails.
use task_manager_api.Prelude.{
  ℕ, ◌+◌, ◌*◌, Bool, none, some, [], ◌∷◌, String, str_eq, ◌==◌, ltb, any, if◌then◌else◌, Result, ok,
  err, bad_request, not_found, forbidden, conflict, internal_error,
}
use task_manager_api.Users.Repository as Accounts
use task_manager_api.Audit
use task_manager_api.Authorization.{WorkspaceRole}
use task_manager_api.Workspaces.Memberships.{Member}
use task_manager_api.Workspaces.Invitations.{Invited, is_pending}
use task_manager_api.Workspaces.Invitations
use task_manager_api.Workspaces.World.{
  WorkspaceEnv, WorkspaceWorld, role_text, is_owner, audit, find_user, find_workspace, find_member,
  create_member,
}

-- A day, in milliseconds.
abbrev pub invitation_lifetime : ℕ
invitation_lifetime = 24 * 60 * 60 * 1000

pub record CreateInvitationDto : Type 0 where
  pub email : String
  pub role : WorkspaceRole

-- What a command draws: the time, the raw token (as hexadecimal text) and the fresh id.
pub record Draw : Type 0 where
  pub now : ℕ
  pub token : String
  pub fresh : ℕ

module _ (env : WorkspaceEnv) where
  -- The guards on the user and on what is there already, up to the token.
  unfoldable pub may_invite :
      (workspace : ℕ)
      → CreateInvitationDto
      → WorkspaceWorld env
      → Result Accounts.Found × WorkspaceWorld env
  unfolding Accounts.find_by_email_without_password find_member Invitations.find_pending_by_email
  may_invite workspace dto w =
      elim (Accounts.find_by_email_without_password env.users env.user_cache env.user_list_cache
        env.to_lower dto.email w.users) [
          | none ↦ (err not_found, w)
          | some invited ↦
              let (existing, w1) = find_member env workspace invited.0 w in
              elim existing [
                | some _ ↦ (err conflict, w1)
                | none ↦
                    let (waiting, invitations) =
                      Invitations.find_pending_by_email env.normal_email env.to_lower
                        env.invitations env.invitation_cache dto.email w1.invitations in
                    let w2 = record w1 { invitations = invitations } in
                    (
                      if any (λ i. i.1.workspace_id == workspace) waiting
                          then err conflict
                          else ok invited,
                      w2,
                    )
              ]
        ]

  -- From the token on. A mail that fails leaves the invitation behind.
  unfoldable pub send_invitation :
      (mail_works : Bool)
      → (workspace : ℕ) → (name : String) → CreateInvitationDto
      → (invited_by invited_id : ℕ) → Draw
      → WorkspaceWorld env
      → Result Invited × WorkspaceWorld env
  unfolding Invitations.create audit role_text
  send_invitation mail_works workspace name dto invited_by invited_id d w =
      let expires_at = d.now + invitation_lifetime in
      let (invitation, invitations) =
        Invitations.create env.normal_email env.to_lower env.invitations env.invitation_cache
          workspace dto.email dto.role (env.sha256 d.token) expires_at invited_by d.fresh
          w.invitations in
      let w1 = record w { invitations = invitations } in
      if mail_works
      then (
        ok invitation,
        audit env invited_by "INVITATION_CREATED" "INVITATION" workspace
            (some (
              ("invitedUserId", Audit.id invited_id)
              ∷ ("role", Audit.text (role_text dto.role))
              ∷ []))
            (record w1 {
              mails =
                  record {
                    to = dto.email;
                    workspace_name = name;
                    token = d.token;
                    expires_at = expires_at;
                  }
                  ∷ w1.mails;
            }),
      )
      else (err internal_error, w1)

  unfoldable pub create_invitation :
      (mail_works : Bool)
      → (workspace : ℕ) → CreateInvitationDto
      → (invited_by : ℕ) → Draw
      → WorkspaceWorld env
      → Result Invited × WorkspaceWorld env
  unfolding find_workspace find_member may_invite send_invitation
  create_invitation mail_works workspace dto invited_by d w =
      let (found, w1) = find_workspace env workspace w in
      elim found [
        | none ↦ (err not_found, w1)
        | some (_, space) ↦
            let (actor, w2) = find_member env workspace invited_by w1 in
            elim actor [
              | none ↦ (err forbidden, w2)
              | some _ ↦
                  if is_owner dto.role
                  then (err bad_request, w2)
                  else (let (guard, w3) = may_invite workspace dto w2 in
                      elim guard [
                        | err e ↦ (err e, w3)
                        | ok invited ↦
                            send_invitation mail_works workspace space.name dto invited_by invited.0
                              d w3
                      ])
            ]
      ]

  -- The guards that an answer to an invitation starts with, in both commands.
  unfoldable pub open_invitation :
      (token : String) → (user now : ℕ) → WorkspaceWorld env → Result Invited × WorkspaceWorld env
  unfolding Invitations.find_by_token_hash find_user
  open_invitation token user now w =
      elim (Invitations.find_by_token_hash env.normal_email env.to_lower env.invitations
        env.invitation_cache (env.sha256 token) w.invitations) [
          | none ↦ (err not_found, w)
          | some (id, i) ↦
              let (found, w1) = find_user env user w in
              (
                elim found [
                  | none ↦ err not_found
                  | some (_, u) ↦
                      if str_eq (env.to_lower u.email) (env.to_lower i.email)
                      then (if is_pending i.status
                          then (if ltb i.expires_at now then err conflict else ok (id, i))
                          else err conflict)
                      else err forbidden
                ],
                w1,
              )
        ]

  unfoldable pub accept_invitation :
      (token : String)
      → (user now fresh : ℕ) → WorkspaceWorld env
      → Result Member × WorkspaceWorld env
  unfolding open_invitation find_member create_member Invitations.mark_accepted audit role_text
  accept_invitation token user now fresh w =
      let (guard, w1) = open_invitation token user now w in
      elim guard [
        | err e ↦ (err e, w1)
        | ok (id, i) ↦
            let (existing, w2) = find_member env i.workspace_id user w1 in
            elim existing [
              | some _ ↦ (err conflict, w2)
              | none ↦
                  let (made, w3) = create_member env i.workspace_id user i.role fresh w2 in
                  elim made [
                    | err e ↦ (err e, w2)
                    | ok m ↦
                        let invitations =
                          Invitations.mark_accepted env.normal_email env.to_lower env.invitations
                            env.invitation_cache id w3.invitations in
                        (
                          ok m,
                          audit env user "INVITATION_ACCEPTED" "INVITATION" i.workspace_id
                              (some (("role", Audit.text (role_text i.role)) ∷ []))
                              (record w3 { invitations = invitations }),
                        )
                  ]
            ]
      ]

  unfoldable pub decline_invitation :
      (token : String) → (user now : ℕ) → WorkspaceWorld env → Result String × WorkspaceWorld env
  unfolding open_invitation Invitations.mark_declined audit role_text
  decline_invitation token user now w =
      let (guard, w1) = open_invitation token user now w in
      elim guard [
        | err e ↦ (err e, w1)
        | ok (id, i) ↦
            let invitations =
              Invitations.mark_declined env.normal_email env.to_lower env.invitations
                env.invitation_cache id w1.invitations in
            (
              ok "Invitation declined successfully",
              audit env user "INVITATION_DECLINED" "INVITATION" i.workspace_id
                  (some (("role", Audit.text (role_text i.role)) ∷ []))
                  (record w1 { invitations = invitations }),
            )
      ]

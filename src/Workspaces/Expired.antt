-- ===== src/Workspaces/Expired.antt =====
-- An invitation of src/workspace/application/commands that nobody answers in time. No code sets the
-- status `EXPIRED`, so it stays pending.
use task_manager_api.Prelude.{
  ℕ, ℕ_discrete, String-discrete, ◌<◌, ◌≡◌, refl, ap, ◌∙◌, inl, inr, Bool, true, ◌&&◌, some, List,
  [], ◌∷◌, String, str_eq, arith, any, All, All-map, ◌==◌, eq_iff, Option-cases, Bool-cases,
  Result-cases, Exception, err, conflict, not_found, forbidden, bad_request,
}
use task_manager_api.Platform.Collection.{has_id}
use task_manager_api.Platform.Tracked.{IsFresh, read_all-IsFresh}
use task_manager_api.Users.Repository as Accounts
use task_manager_api.Workspaces.{Invitation}
use task_manager_api.Workspaces.Invitations.{
  Invited, Key, of_email, is_pending, stored, cache_time, find_pending_by_email,
}
use task_manager_api.Workspaces.World.{
  WorkspaceEnv, WorkspaceWorld, is_owner, find_workspace, find_member,
}
use task_manager_api.Workspaces.Invite.{
  CreateInvitationDto, Draw, open_invitation, may_invite, create_invitation, accept_invitation,
  decline_invitation,
}
use task_manager_api.Workspaces.Answers.{
  invitation, by_token, open_invitation-IsOpen, invitations-open, fails_after,
}

pub Key-discrete : Discrete Key
Key-discrete = hlevel (ℕ_discrete, String-discrete)

module _ (env : WorkspaceEnv) where
  waiting_for : (ws : ℕ) → CreateInvitationDto → WorkspaceWorld env → Bool
  waiting_for ws dto w =
      any (λ x. x.1.workspace_id == ws)
        (find_pending_by_email env.normal_email env.to_lower env.invitations env.invitation_cache
          dto.email w.invitations).0

  may_invite-fails :
      (ws : ℕ) (dto : CreateInvitationDto) (w : WorkspaceWorld env)
      → waiting_for ws dto w ≡ true
      → (e : Exception) × ((may_invite env ws dto w).0 ≡ err e)
  unfolding may_invite find_member waiting_for
  may_invite-fails ws dto w h =
      elim (Option-cases (
        Accounts.find_by_email_without_password env.users env.user_cache env.user_list_cache
          env.to_lower dto.email w.users)) [
            | inl unknown ↦ (not_found, rw (unknown, may_invite) refl)
            | inr (u, known) ↦ elim (Option-cases (find_member env ws u.0 w).0) [
              | inr (m, there) ↦ (conflict, rw (known, there, may_invite) refl)
              | inl outside ↦ (conflict, rw (known, outside, may_invite) (rw h refl))
            ]
          ]

  create_invitation-fails :
      (mail_works : Bool) (ws : ℕ) (dto : CreateInvitationDto) (invited_by : ℕ) (d : Draw)
      (w : WorkspaceWorld env)
      → waiting_for ws dto w ≡ true
      → (e : Exception) × ((create_invitation env mail_works ws dto invited_by d w).0 ≡ err e)
  unfolding create_invitation find_workspace find_member waiting_for
  create_invitation-fails mail_works ws dto invited_by d w h =
      let w1 = (find_workspace env ws w).1 in
      let w2 = (find_member env ws invited_by w1).1 in
      elim (Option-cases (find_workspace env ws w).0) [
        | inl missing ↦ (not_found, rw (missing, create_invitation) refl)
        | inr (space, found) ↦ elim (Option-cases (find_member env ws invited_by w1).0) [
          | inl stranger ↦ (forbidden, rw (found, stranger, create_invitation) refl)
          | inr (m, actor) ↦ elim (Bool-cases (is_owner dto.role)) [
            | inl top ↦ (bad_request, rw (found, actor, top, create_invitation) refl)
            | inr lower ↦
                let (e, refused) = may_invite-fails ws dto w2 h in
                (e, rw (found, actor, lower, refused, create_invitation) refl)
          ]
        ]
      ]

  -- The pending invitation of the address is in the answer of a fresh cache.
  any_workspace :
      (ws id : ℕ) (i : Invitation) (s : env.invitations.Store) (xs : List Invited)
      → env.invitations.find_by_id id s ≡ some i
      → i.workspace_id ≡ ws
      → All (λ x. (env.invitations.find_by_id x.0 s ≡ some x.1)) xs
      → any (has_id id) xs ≡ true
      → any (λ x. x.1.workspace_id == ws) xs ≡ true
  any_workspace ws id i s [] found same all h = cc
  any_workspace ws id i s ((j, k) ∷ xs) found same (here, all) h = elim (Bool-cases (id == j)) [
    | inl this ↦
        let at : id ≡ j = ground arith in
        let alike : k ≡ i =
          ground (arith, here, found, ap (λ x. env.invitations.find_by_id x s) at) in
        ground (arith, alike, same)
    | inr other ↦
        let later = any_workspace ws id i s xs found same all (ground (arith, other, h)) in
        ground (arith, later)
  ]

  abbrev pub HasFreshCache : WorkspaceWorld env → Type 0
  HasFreshCache w =
      IsFresh env.invitation_cache Key-discrete
        (λ k. some (
          stored env.normal_email env.to_lower env.invitations env.invitation_cache
            w.invitations.docs k))
        w.invitations.lists

  waiting_for-true :
      (ws id : ℕ) (i : Invitation) (dto : CreateInvitationDto) (w : WorkspaceWorld env)
      → HasFreshCache w
      → invitation env id w ≡ some i
      → is_pending i.status ≡ true
      → i.workspace_id ≡ ws
      → i.email ≡ env.to_lower dto.email
      → waiting_for ws dto w ≡ true
  unfolding waiting_for find_pending_by_email
  waiting_for-true ws id i dto w fresh found waits space email =
      let key = of_email (env.to_lower dto.email) in
      let docs = w.invitations.docs in
      let p : Invitation → Bool =
        λ x. str_eq x.email (env.to_lower dto.email) && is_pending x.status in
      let holds : p i ≡ true =
        ground (arith, waits, email, eq_iff i.email (env.to_lower dto.email)) in
      let (answer, _) =
        read_all-IsFresh env.invitation_cache Key-discrete
          (λ k.
            some (stored env.normal_email env.to_lower env.invitations env.invitation_cache docs k))
          key cache_time (env.invitations.find_where p docs) w.invitations.lists refl fresh in
      ap (any (λ x. x.1.workspace_id == ws)) answer
      ∙ any_workspace ws id i docs (env.invitations.find_where p docs) found space
          (All-map (λ x h. h.0) (env.invitations.find_where p docs)
            (env.invitations.find_where_sound p docs))
          (env.invitations.find_where_complete p id i docs found holds)

  -- What an unanswered invitation that has expired leads to.
  pub record IsStuck (token : String) (ws : ℕ) (dto : CreateInvitationDto) (now : ℕ)
      (w : WorkspaceWorld env) : Type 0 where
    pub accept_fails :
        (user fresh : ℕ)
        → (e : Exception) × ((accept_invitation env token user now fresh w).0 ≡ err e)
    pub accept_keeps :
        (user fresh : ℕ)
        → (accept_invitation env token user now fresh w).1.invitations ≡ w.invitations
    pub decline_fails :
        (user : ℕ) → (e : Exception) × ((decline_invitation env token user now w).0 ≡ err e)
    pub decline_keeps :
        (user : ℕ) → (decline_invitation env token user now w).1.invitations ≡ w.invitations
    pub invite_fails :
        (mail_works : Bool) (invited_by : ℕ) (d : Draw)
        → (e : Exception) × ((create_invitation env mail_works ws dto invited_by d w).0 ≡ err e)

  late :
      (token : String) (user now id : ℕ) (i : Invitation) (w : WorkspaceWorld env)
      → by_token env token w ≡ some (id, i)
      → i.expires_at < now
      → (e : Exception) × ((open_invitation env token user now w).0 ≡ err e)
  late token user now id i w found past =
      elim (Result-cases (open_invitation env token user now w).0) [
        | inr (e, refused) ↦ (e, refused)
        | inl ((j, k), passed) ↦
            let (found', is_open) = open_invitation-IsOpen env token user now j k w passed in
            let same : i ≡ k = ground (arith, found, found') in
            absurd (ground (arith, is_open.in_time, past, ap (λ x. x.expires_at) same))
      ]

  -- A pending invitation whose time is over can be neither accepted nor declined, and it stays as it
  -- is; and as long as it is there, a new invitation of its address to its workspace fails, whoever
  -- asks for it. The cache of the invitations is fresh, and the token is found.
  pub expired-IsStuck :
      (token : String) (ws id now : ℕ) (i : Invitation) (dto : CreateInvitationDto)
      (w : WorkspaceWorld env)
      → HasFreshCache w
      → by_token env token w ≡ some (id, i)
      → invitation env id w ≡ some i
      → is_pending i.status ≡ true
      → i.expires_at < now
      → i.workspace_id ≡ ws
      → i.email ≡ env.to_lower dto.email
      → IsStuck token ws dto now w
  unfolding accept_invitation decline_invitation
  expired-IsStuck token ws id now i dto w fresh found stored_i waits past space email =
      let refuses = λ (user : ℕ). late token user now id i w found past in
      record {
        accept_fails =
            λ user fresh_id. (fails_after env token user now fresh_id w (refuses user)).0;
        accept_keeps = λ user fresh_id.
            rw ((refuses user).1, accept_invitation) (invitations-open env token user now w);
        decline_fails = λ user. (fails_after env token user now 0 w (refuses user)).1;
        decline_keeps = λ user.
            rw ((refuses user).1, decline_invitation) (invitations-open env token user now w);
        invite_fails = λ mail_works invited_by d.
            create_invitation-fails mail_works ws dto invited_by d w
              (waiting_for-true ws id i dto w fresh stored_i waits space email);
      }

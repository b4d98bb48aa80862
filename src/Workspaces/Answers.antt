-- ===== src/Workspaces/Answers.antt =====
-- What becomes of an invitation in src/workspace/application/commands: accepted once, or declined, or
-- expired and stuck.
use task_manager_api.Prelude.{
  ℕ, ◌≡◌, refl, sym, ap, ◌∙◌, inl, inr, true, false, Option, some, String, str_eq, arith, ltb,
  Option-cases, if◌then◌else◌, ◌==◌, Result-cases, Exception, ok, err,
}
use task_manager_api.Platform.Unique.{IsAlone, find_one_alone}
use task_manager_api.Authorization.{WorkspaceRole}
use task_manager_api.Workspaces.{Invitation, accepted}
use task_manager_api.Workspaces.Memberships.{Member, new_membership}
use task_manager_api.Workspaces.Memberships
use task_manager_api.Workspaces.Invitations.{Invited, is_pending, mark_accepted, find_by_token_hash}
use task_manager_api.Workspaces.World.{
  WorkspaceEnv, WorkspaceWorld, audit, find_user, find_member, create_member,
}
use task_manager_api.Workspaces.Invite.{open_invitation, accept_invitation, decline_invitation}

module _ (env : WorkspaceEnv) where
  abbrev pub invitation : ℕ → WorkspaceWorld env → Option Invitation
  invitation id w = env.invitations.find_by_id id w.invitations.docs

  abbrev pub by_token : String → WorkspaceWorld env → Option Invited
  by_token token w =
      find_by_token_hash env.normal_email env.to_lower env.invitations env.invitation_cache
        (env.sha256 token) w.invitations

  -- What the guards of both answers have checked.
  pub record IsOpen (id : ℕ) (i : Invitation) (now : ℕ) (w : WorkspaceWorld env) : Type 0 where
    pub stored : invitation id w ≡ some i
    pub waits : is_pending i.status ≡ true
    pub in_time : ltb i.expires_at now ≡ false

  pub invitations-open :
      (token : String) (user now : ℕ) (w : WorkspaceWorld env)
      → (open_invitation env token user now w).1.invitations ≡ w.invitations
  unfolding open_invitation find_user
  invitations-open token user now w = ground arith

  pub open_invitation-IsOpen :
      (token : String) (user now id : ℕ) (i : Invitation) (w : WorkspaceWorld env)
      → (open_invitation env token user now w).0 ≡ ok (id, i)
      → (by_token token w ≡ some (id, i)) × IsOpen id i now w
  unfolding open_invitation find_by_token_hash
  open_invitation-IsOpen token user now id i w h = elim (Option-cases (by_token token w)) [
    | inl absent ↦ absurd (ground (arith, absent, h))
    | inr ((j, k), found) ↦
        let same_id : j ≡ id = ground (arith, found, h) in
        let same : k ≡ i = ground (arith, found, h) in
        let stored =
          (env.invitations.find_one_sound (λ x. str_eq x.token_hash (env.sha256 token))
            w.invitations.docs (j, k) found).0 in
        (
          ground (arith, found, same_id, same),
          record {
            stored =
                ap (λ x. env.invitations.find_by_id x w.invitations.docs) (sym same_id)
                ∙ stored
                ∙ ap some same;
            waits = ground (arith, found, h);
            in_time = ground (arith, found, h);
          },
        )
  ]

  -- After either answer the invitation has its new status, and nothing else in it has changed.
  marked_accepted :
      (id : ℕ) (i : Invitation) (now : ℕ) (w : WorkspaceWorld env)
      → IsOpen id i now w
      → env.invitations.find_by_id id
          (mark_accepted env.normal_email env.to_lower env.invitations env.invitation_cache id
            w.invitations).docs
        ≡ some (record i { status = accepted })
  unfolding mark_accepted
  marked_accepted id i now w h =
      env.invitations.find-update id id (λ x. is_pending x.status)
        (λ x. record x { status = accepted }) w.invitations.docs
      ∙ ground (arith, h.stored, h.waits)

  memberships-open :
      (token : String) (user now : ℕ) (w : WorkspaceWorld env)
      → (open_invitation env token user now w).1.memberships ≡ w.memberships
  unfolding open_invitation find_user
  memberships-open token user now w = ground arith

  docs-find_member :
      (ws user : ℕ) (w : WorkspaceWorld env)
      → (find_member env ws user w).1.memberships.docs ≡ w.memberships.docs
  unfolding find_member Memberships.find_by_workspace_and_user
  docs-find_member ws user w = refl

  -- A membership that is made is inserted under its new id.
  created_as :
      (ws user : ℕ) (role : WorkspaceRole) (fresh : ℕ) (m : Member) (w : WorkspaceWorld env)
      → (create_member env ws user role fresh w).0 ≡ ok m
      → (m ≡ (fresh, new_membership ws user role))
        × ((create_member env ws user role fresh w).1.memberships.docs
            ≡ env.memberships.insert fresh (new_membership ws user role) w.memberships.docs)
  unfolding create_member Memberships.create Memberships.clear_caches
  created_as ws user role fresh m w h =
      elim (Option-cases
        (env.memberships.find_one (Memberships.is_of ws user) w.memberships.docs)) [
          | inl absent ↦
              (ground (arith, absent, h), rw (absent, create_member, Memberships.create) refl)
          | inr (d, present) ↦ absurd (ground (arith, present, h))
        ]

  -- An acceptance that succeeds: the invitation was waiting and in time and is accepted now, and the
  -- membership made is the invitation's, for the user who accepts.
  pub record Accepted (token : String) (user now fresh : ℕ) (m : Member) (w : WorkspaceWorld env)
      (after : WorkspaceWorld env) : Type 0 where
    pub id : ℕ
    pub before : Invitation
    pub found : by_token token w ≡ some (id, before)
    pub was_open : IsOpen id before now w
    pub now_accepted : invitation id after ≡ some (record before { status = accepted })
    pub membership : m ≡ (fresh, new_membership before.workspace_id user before.role)
    pub memberships :
        (j : ℕ)
        → env.memberships.find_by_id j after.memberships.docs ≡ (
            if fresh == j
            then some (new_membership before.workspace_id user before.role)
            else env.memberships.find_by_id j w.memberships.docs)

  record Answered (token : String) (user now fresh : ℕ) (m : Member) (w : WorkspaceWorld env)
      (after : WorkspaceWorld env) : Type 0 where
    id : ℕ
    before : Invitation
    found : by_token token w ≡ some (id, before)
    was_open : IsOpen id before now w
    now_accepted : invitation id after ≡ some (record before { status = accepted })
    membership : m ≡ (fresh, new_membership before.workspace_id user before.role)
    inserted :
        after.memberships.docs
        ≡ env.memberships.insert fresh
            (new_membership before.workspace_id user before.role)
            w.memberships.docs

  accept_invitation-Answered :
      (token : String) (user now fresh : ℕ) (m : Member) (w : WorkspaceWorld env)
      → (accept_invitation env token user now fresh w).0 ≡ ok m
      → Answered token user now fresh m w (accept_invitation env token user now fresh w).1
  unfolding accept_invitation find_member create_member audit
  accept_invitation-Answered token user now fresh m w h =
      elim (Result-cases (open_invitation env token user now w).0) [
        | inr (e, refused) ↦ absurd (ground (arith, refused, h))
        | inl ((id, i), passed) ↦
            let w1 = (open_invitation env token user now w).1 in
            let w2 = (find_member env i.workspace_id user w1).1 in
            elim (Option-cases (find_member env i.workspace_id user w1).0) [
              | inr (there, existing) ↦ absurd (ground (arith, passed, existing, h))
              | inl fresh_member ↦
                  elim (Result-cases (create_member env i.workspace_id user i.role fresh w2).0) [
                    | inr (e, failed) ↦ absurd (ground (arith, passed, fresh_member, failed, h))
                    | inl (m', made) ↦
                        let (found, is_open) =
                          open_invitation-IsOpen token user now id i w passed in
                        let same : m' ≡ m = ground (arith, passed, fresh_member, made, h) in
                        let docs : w2.memberships.docs ≡ w.memberships.docs =
                          docs-find_member i.workspace_id user w1
                          ∙ ap (λ x. x.docs) (memberships-open token user now w) in
                        let (membership, stored) =
                          created_as i.workspace_id user i.role fresh m' w2 made in
                        record {
                          id = id;
                          before = i;
                          found = found;
                          was_open = is_open;
                          now_accepted =
                              rw (passed, fresh_member, made, accept_invitation)
                                (ap
                                    (λ x.
                                      env.invitations.find_by_id id
                                        (mark_accepted env.normal_email env.to_lower env.invitations
                                          env.invitation_cache id x).docs)
                                    (invitations-open token user now w)
                                  ∙ marked_accepted id i now w is_open);
                          membership = sym same ∙ membership;
                          inserted =
                              rw (passed, fresh_member, made, accept_invitation)
                                (stored
                                  ∙ ap
                                      (env.memberships.insert fresh
                                        (new_membership i.workspace_id user i.role))
                                      docs);
                        }
                  ]
            ]
      ]

  -- The only invitation with the hash of the token.
  abbrev pub IsOnly : String → WorkspaceWorld env → Type 0
  IsOnly token w =
      IsAlone env.invitations (λ i. str_eq i.token_hash (env.sha256 token)) w.invitations.docs

  -- An invitation that does not wait lets nobody through.
  closed :
      (token : String) (user now id : ℕ) (i : Invitation) (w : WorkspaceWorld env)
      → by_token token w ≡ some (id, i)
      → is_pending i.status ≡ false
      → (e : Exception) × ((open_invitation env token user now w).0 ≡ err e)
  unfolding open_invitation
  closed token user now id i w found over =
      elim (Result-cases (open_invitation env token user now w).0) [
        | inr (e, refused) ↦ (e, refused)
        | inl ((j, k), passed) ↦
            let (found', is_open) = open_invitation-IsOpen token user now j k w passed in
            absurd (ground (arith, found, found', over, is_open.waits))
      ]

  pub fails_after :
      (token : String) (user now fresh : ℕ) (w : WorkspaceWorld env)
      → ((e : Exception) × ((open_invitation env token user now w).0 ≡ err e))
      → ((e : Exception) × ((accept_invitation env token user now fresh w).0 ≡ err e))
        × ((e : Exception) × ((decline_invitation env token user now w).0 ≡ err e))
  unfolding accept_invitation decline_invitation
  fails_after token user now fresh w (e, refused) =
      ((e, rw (refused, accept_invitation) refl), (e, rw (refused, decline_invitation) refl))

  -- A token works once: after an acceptance that succeeds, where no other invitation has the hash of
  -- the token, every later use of it fails, by whomever and whether to accept or to decline.
  pub accept_invitation-once :
      (token : String) (user now fresh : ℕ) (m : Member) (w : WorkspaceWorld env)
      (user' now' fresh' : ℕ)
      → (accept_invitation env token user now fresh w).0 ≡ ok m
      → IsOnly token (accept_invitation env token user now fresh w).1
      → ((e : Exception) × ((accept_invitation env token user' now' fresh'
              (accept_invitation env token user now fresh w).1).0
            ≡ err e))
        × ((e : Exception) × ((decline_invitation env token user' now'
                (accept_invitation env token user now fresh w).1).0
              ≡ err e))
  unfolding find_by_token_hash
  accept_invitation-once token user now fresh m w user' now' fresh' h only =
      let done = accept_invitation-Answered token user now fresh m w h in
      let after = (accept_invitation env token user now fresh w).1 in
      let hash : str_eq done.before.token_hash (env.sha256 token) ≡ true =
        (env.invitations.find_one_sound (λ x. str_eq x.token_hash (env.sha256 token))
          w.invitations.docs (done.id, done.before) done.found).1 in
      let found =
        find_one_alone env.invitations (λ x. str_eq x.token_hash (env.sha256 token))
          after.invitations.docs done.id (record done.before { status = accepted })
          done.now_accepted hash
          (λ j e here same.
            only j done.id e (record done.before { status = accepted }) here done.now_accepted same
              hash) in
      fails_after token user' now' fresh' after (
        closed token user' now' done.id (record done.before { status = accepted }) after found refl)

-- ===== src/Authorization/Roles.antt =====
-- What the rules of the roles allow on each kind of subject.
use task_manager_api.Prelude.{
  ℕ, ◌≡◌, refl, ◌≤◌, ◌∙◌, sym, Bool, true, some, List, [], ◌∷◌, arith, every, ◌||◌, ◌==◌, not,
}
use task_manager_api.Authorization.{
  Casl, Action, Subject, WorkspaceRole, manage, create, read, update, delete, workspace, task,
  member, invitation, comment, attachment, webhook, billing, audit_log, export, owner, admin,
  viewer, create_for_role, last_allows, is_about, action_number,
}

abbrev pub rank : WorkspaceRole → ℕ
rank viewer = 0
rank member = 1
rank admin = 2
rank owner = 3

-- A question's answer by the rules of a role; the rules' conditions on tasks do not matter here.
abbrev allows : WorkspaceRole → ℕ → Action → Subject → Bool
allows r id a s = last_allows (is_about a s) (create_for_role (some r) id)

-- Checks over the finite types.
abbrev subjects : List Subject
subjects =
    workspace ∷ task ∷ member ∷ invitation ∷ comment ∷ attachment ∷ webhook ∷ billing ∷ audit_log
    ∷ export ∷ []

abbrev actions : List Action
actions = manage ∷ create ∷ read ∷ update ∷ delete ∷ []

every-subjects : (f : Subject → Bool) (s : Subject) → every f subjects ≡ true → f s ≡ true
every-subjects f workspace h = ground arith
every-subjects f task h = ground arith
every-subjects f member h = ground arith
every-subjects f invitation h = ground arith
every-subjects f comment h = ground arith
every-subjects f attachment h = ground arith
every-subjects f webhook h = ground arith
every-subjects f billing h = ground arith
every-subjects f audit_log h = ground arith
every-subjects f export h = ground arith

every-actions : (f : Action → Bool) (a : Action) → every f actions ≡ true → f a ≡ true
every-actions f manage h = ground arith
every-actions f create h = ground arith
every-actions f read h = ground arith
every-actions f update h = ground arith
every-actions f delete h = ground arith

every_question :
    (f : Action → Subject → Bool) (a : Action) (s : Subject)
    → every (λ b. every (f b) subjects) actions ≡ true
    → f a s ≡ true
every_question f a s h = every-subjects (f a) s (every-actions (λ b. every (f b) subjects) a h)

-- The next role up allows what a role allows.
viewer_below :
    (id : ℕ) (a : Action) (s : Subject)
    → (not (allows viewer id a s) || allows member id a s) ≡ true
viewer_below id a s =
    every_question (λ b t. not (allows viewer id b t) || allows member id b t) a s refl

member_below :
    (id : ℕ) (a : Action) (s : Subject) → (not (allows member id a s) || allows admin id a s) ≡ true
member_below id a s =
    every_question (λ b t. not (allows member id b t) || allows admin id b t) a s refl

admin_below :
    (id : ℕ) (a : Action) (s : Subject) → (not (allows admin id a s) || allows owner id a s) ≡ true
admin_below id a s =
    every_question (λ b t. not (allows admin id b t) || allows owner id b t) a s refl

viewer_only_reads :
    (id : ℕ) (a : Action) (s : Subject)
    → (not (allows viewer id a s) || action_number a == 2) ≡ true
viewer_only_reads id a s =
    every_question (λ b t. not (allows viewer id b t) || action_number b == 2) a s refl

below :
    (r r' : WorkspaceRole) (id : ℕ) (a : Action) (s : Subject)
    → rank r ≤ rank r'
    → allows r id a s ≡ true
    → allows r' id a s ≡ true
below r r' id a s up h =
    let v = viewer_below id a s in
    let m = member_below id a s in
    let d = admin_below id a s in steps (λ q. allows q id a s) v m d r r' up h
  where
    steps :
        (f : WorkspaceRole → Bool)
        → (not (f viewer) || f member) ≡ true
        → (not (f member) || f admin) ≡ true
        → (not (f admin) || f owner) ≡ true
        → (q q' : WorkspaceRole) → rank q ≤ rank q'
        → f q ≡ true
        → f q' ≡ true
    steps f v m d viewer viewer up h = h
    steps f v m d viewer member up h = ground arith
    steps f v m d viewer admin up h = ground arith
    steps f v m d viewer owner up h = ground arith
    steps f v m d member viewer up h = absurd (omega arith)
    steps f v m d member member up h = h
    steps f v m d member admin up h = ground arith
    steps f v m d member owner up h = ground arith
    steps f v m d admin viewer up h = absurd (omega arith)
    steps f v m d admin member up h = absurd (omega arith)
    steps f v m d admin admin up h = h
    steps f v m d admin owner up h = ground arith
    steps f v m d owner viewer up h = absurd (omega arith)
    steps f v m d owner member up h = absurd (omega arith)
    steps f v m d owner admin up h = absurd (omega arith)
    steps f v m d owner owner up h = h

module _ (casl : Casl) where
  -- Where a role may do something on a kind of subject, so may every role above it, in the order
  -- viewer, member, admin, owner.
  pub role_order :
      (r r' : WorkspaceRole) (id : ℕ) (a : Action) (s : Subject)
      → rank r ≤ rank r'
      → casl.can_some (casl.build (create_for_role (some r) id)) a s ≡ true
      → casl.can_some (casl.build (create_for_role (some r') id)) a s ≡ true
  role_order r r' id a s up h =
      casl.can_some-build (create_for_role (some r') id) a s
      ∙ below r r' id a s up (sym (casl.can_some-build (create_for_role (some r) id) a s) ∙ h)

  -- What a viewer may do on any kind of subject is reading.
  pub viewer_reads :
      (id : ℕ) (a : Action) (s : Subject)
      → casl.can_some (casl.build (create_for_role (some viewer) id)) a s ≡ true
      → a ≡ read
  viewer_reads id a s h =
      is_read a (viewer_only_reads id a s)
        (sym (casl.can_some-build (create_for_role (some viewer) id) a s) ∙ h)
    where
      is_read :
          (b : Action)
          → (not (allows viewer id b s) || action_number b == 2) ≡ true
          → allows viewer id b s ≡ true
          → b ≡ read
      is_read read q g = refl
      is_read manage q g = absurd (ground arith)
      is_read create q g = absurd (ground arith)
      is_read update q g = absurd (ground arith)
      is_read delete q g = absurd (ground arith)

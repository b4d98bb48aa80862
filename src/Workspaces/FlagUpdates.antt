-- ===== src/Workspaces/FlagUpdates.antt =====
-- The feature flags of src/workspace/application/services/feature-flags.service.ts after the command
-- update-feature-flags.
use task_manager_api.Prelude.{
  ℕ, ◌≡◌, ◌≢◌, refl, ◌∙◌, inl, inr, true, none, some, arith, Option-cases, Bool-cases, ◌==◌,
  is_some, Result, ok, Bool, Option, if◌then◌else◌,
}
use task_manager_api.Platform.Collection.{Collection}
use task_manager_api.Workspaces.Flags.{
  WorkspaceFeatureFlag, WorkspaceFeatureFlags, FlagMap, UpdateFeatureFlagsDto, spread, otherwise,
  all_default, is_for, given_flags, find_by_workspace_id, create, update, update_flags,
  update_feature_flags, get_flags, is_enabled, webhooks, exports, reminders, email_notifications,
  advanced_task_filtering,
}
use task_manager_api.Workspaces.FlagWrites.{
  config, IsConfigured, Writes, config_written, config_other, IsConfigured-after,
}

module _ (db : Collection WorkspaceFeatureFlags) where
  -- The two ways of writing.
  inserted :
      (w fresh : ℕ) (flags : FlagMap) (s : db.Store)
      → config db w s ≡ none
      → db.find_by_id fresh s ≡ none
      → Writes db w fresh
          (record { workspace_id = w; flags = flags })
          s
          (db.insert fresh (record { workspace_id = w; flags = flags }) s)
  inserted w fresh flags s absent free = record {
    for_workspace = ground arith;
    written = λ j. db.find-insert fresh j (record { workspace_id = w; flags = flags }) s free;
    only = λ j e found for_e.
        absurd (ground (arith, db.find_one_complete (is_for w) s j e absent found));
    was_for = λ e found. absurd (ground (arith, free));
  }

  updated :
      (w id : ℕ) (d : WorkspaceFeatureFlags) (flags : FlagMap) (s : db.Store)
      → IsConfigured db s
      → db.find_by_id id s ≡ some d
      → is_for w d ≡ true
      → Writes db w id
          (record d { flags = spread d.flags flags })
          s
          (db.find_one_and_update id
            (is_for w)
            (λ e. record e { flags = spread e.flags flags })
            s).1
  updated w id d flags s h found for_d = record {
    for_workspace = for_d;
    written = λ j. elim (Bool-cases (id == j)) [
      | inl same ↦
          let at : id ≡ j = ground arith in
          db.find-update id j (is_for w) (λ e. record e { flags = spread e.flags flags }) s
          ∙ rw (same, ← at, found, for_d) refl
      | inr other ↦
          db.find-update id j (is_for w) (λ e. record e { flags = spread e.flags flags }) s
          ∙ rw other refl
    ];
    only = λ j e old for_e. h.alone w j id e d old found for_e for_d;
    was_for = λ e old. ground (arith, found, old, for_d);
  }

  spread_complete :
      (base flags : FlagMap) (f : WorkspaceFeatureFlag)
      → is_some (base f) ≡ true
      → is_some (spread base flags f) ≡ true
  spread_complete base flags f whole = elim (Option-cases (flags f)) [
    | inl absent ↦ rw (absent, is_some, spread) whole
    | inr (b, given) ↦ rw (given, is_some, spread) refl
  ]

  spread_assoc :
      (base flags more : FlagMap) (f : WorkspaceFeatureFlag)
      → spread base (spread flags more) f ≡ spread (spread base flags) more f
  spread_assoc base flags more f = elim (Option-cases (more f)) [
    | inl absent ↦ rw (absent, spread) refl
    | inr (b, given) ↦ rw (given, spread) refl
  ]

  default_complete : (f : WorkspaceFeatureFlag) → is_some (all_default f) ≡ true
  unfolding all_default
  default_complete f = refl

  spread_default :
      (flags : FlagMap) (f : WorkspaceFeatureFlag)
      → spread all_default (spread all_default flags) f ≡ spread all_default flags f
  unfolding all_default
  spread_default flags f = elim (Option-cases (flags f)) [
    | inl absent ↦ rw (absent, spread) refl
    | inr (b, given) ↦ rw (given, spread) refl
  ]

  -- What a write of some flags does, seen through the reads.
  record Updates (w : ℕ) (flags : FlagMap) (s : db.Store)
      (r : Result WorkspaceFeatureFlags × db.Store) : Type 0 where
    pub config_of : WorkspaceFeatureFlags
    pub succeeds : r.0 ≡ ok config_of
    pub reads :
        (v : ℕ) (f : WorkspaceFeatureFlag)
        → get_flags db v r.1 f
          ≡ (if w == v then spread (get_flags db w s) flags f else get_flags db v s f)
    pub configured : IsConfigured db r.1

  Updates-written :
      (w id : ℕ) (c : WorkspaceFeatureFlags) (flags : FlagMap) (s t : db.Store)
      → Writes db w id c s t
      → IsConfigured db s
      → ((f : WorkspaceFeatureFlag) → is_some (c.flags f) ≡ true)
      → ((f : WorkspaceFeatureFlag)
          → spread all_default c.flags f ≡ spread (get_flags db w s) flags f)
      → Updates w flags s (ok c, t)
  unfolding get_flags find_by_workspace_id
  Updates-written w id c flags s t write h whole merged = record {
    config_of = c;
    succeeds = refl;
    reads = λ v f. elim (Bool-cases (w == v)) [
      | inl same ↦
          let at : v ≡ w = ground arith in
          rw (same, at, config_written db w id c s t write h, get_flags, find_by_workspace_id)
            (merged f)
      | inr differs ↦
          let other : v ≢ w = λ e. ground (arith, differs, e) in
          rw (differs, config_other db w id c s t write h v other, get_flags, find_by_workspace_id)
            refl
    ];
    configured = IsConfigured-after db w id c s t write h whole;
  }

  update_feature_flags-Updates :
      (w : ℕ) (dto : UpdateFeatureFlagsDto) (fresh : ℕ) (s : db.Store)
      → IsConfigured db s
      → db.find_by_id fresh s ≡ none
      → Updates w (given_flags db dto) s (update_feature_flags db w dto fresh s)
  unfolding update_feature_flags update_flags update create find_by_workspace_id get_flags
  update_feature_flags-Updates w dto fresh s h free =
      let given : FlagMap = given_flags db dto in
      elim (Option-cases (config db w s)) [
        | inl absent ↦
            rw (absent, update_feature_flags, update_flags, find_by_workspace_id)
              (rw (absent, create)
                (Updates-written w fresh
                  (record { workspace_id = w; flags = spread all_default given }) given s _
                  (inserted w fresh (spread all_default given) s absent free) h
                  (λ f. spread_complete all_default given f (default_complete f))
                  (λ f. rw (absent, get_flags, find_by_workspace_id) (spread_default given f))))
        | inr ((id, d), present) ↦
            let (stored, for_d) = db.find_one_sound (is_for w) s (id, d) present in
            let returned : (db.find_one_and_update id (is_for w)
                  (λ e. record e { flags = spread e.flags given }) s).0
                ≡ some (record d { flags = spread d.flags given }) =
              db.update_returns id (is_for w) (λ e. record e { flags = spread e.flags given }) s
              ∙ rw (stored, for_d) refl in
            rw (present, update_feature_flags, update_flags, find_by_workspace_id)
              (rw (present, returned, update)
                (Updates-written w id (record d { flags = spread d.flags given }) given s _
                  (updated w id d given s h stored for_d) h
                  (λ f. spread_complete d.flags given f (h.complete id d stored f))
                  (λ f.
                    rw (present, get_flags, find_by_workspace_id)
                      (spread_assoc all_default d.flags given f))))
      ]

  -- A flag that the body sets, or the flag as it was.
  abbrev pub or_as_before : Option Bool → Option Bool → Option Bool
  or_as_before asked before = elim asked [ none ↦ before | some b ↦ some b ]

  -- What the command does, flag by flag.
  pub record Requested (w : ℕ) (dto : UpdateFeatureFlagsDto) (s : db.Store)
      (r : Result WorkspaceFeatureFlags × db.Store) : Type 0 where
    pub config_of : WorkspaceFeatureFlags
    pub succeeds : r.0 ≡ ok config_of
    pub reads_webhooks :
        get_flags db w r.1 webhooks ≡ or_as_before dto.webhooks (get_flags db w s webhooks)
    pub reads_exports :
        get_flags db w r.1 exports ≡ or_as_before dto.exports (get_flags db w s exports)
    pub reads_reminders :
        get_flags db w r.1 reminders ≡ or_as_before dto.reminders (get_flags db w s reminders)
    pub reads_email_notifications :
        get_flags db w r.1 email_notifications
        ≡ or_as_before dto.email_notifications (get_flags db w s email_notifications)
    pub reads_advanced_task_filtering :
        get_flags db w r.1 advanced_task_filtering
        ≡ or_as_before dto.advanced_task_filtering (get_flags db w s advanced_task_filtering)
    pub others_keep :
        (v : ℕ) (f : WorkspaceFeatureFlag)
        → get_flags db v r.1 f ≡ (if w == v then get_flags db w r.1 f else get_flags db v s f)
    pub configured : IsConfigured db r.1

  -- The flags that the command gives are read back after it, the other flags of the workspace and
  -- the flags of every other workspace stay as they were, and every workspace still has at most one
  -- configuration, with every flag in it. The command never fails from a store with that property,
  -- where the new id is unused.
  pub update_feature_flags-get_flags :
      (w : ℕ) (dto : UpdateFeatureFlagsDto) (fresh : ℕ) (s : db.Store)
      → IsConfigured db s
      → db.find_by_id fresh s ≡ none
      → Requested w dto s (update_feature_flags db w dto fresh s)
  unfolding given_flags
  update_feature_flags-get_flags w dto fresh s h free =
      let done = update_feature_flags-Updates w dto fresh s h free in
      let here : (f : WorkspaceFeatureFlag)
          → get_flags db w (update_feature_flags db w dto fresh s).1 f
            ≡ spread (get_flags db w s) (given_flags db dto) f =
        λ f. done.reads w f ∙ (let same : (w == w) ≡ true = ground arith in rw same refl) in
      record {
        config_of = done.config_of;
        succeeds = done.succeeds;
        reads_webhooks = here webhooks;
        reads_exports = here exports;
        reads_reminders = here reminders;
        reads_email_notifications = here email_notifications;
        reads_advanced_task_filtering = here advanced_task_filtering;
        others_keep = λ v f. elim (Bool-cases (w == v)) [
          | inl same ↦ let at : v ≡ w = ground arith in rw (same, at) refl
          | inr other ↦ done.reads v f ∙ rw other refl
        ];
        configured = done.configured;
      }

  -- Where every stored configuration has every flag, the two ways of reading a flag agree: the
  -- service's test of a flag, which counts a missing key as off, and its list of the flags, which
  -- fills a missing key from the defaults.
  pub is_enabled-get_flags :
      (w : ℕ) (f : WorkspaceFeatureFlag) (s : db.Store)
      → IsConfigured db s
      → some (is_enabled db w f s) ≡ get_flags db w s f
  unfolding is_enabled get_flags find_by_workspace_id all_default
  is_enabled-get_flags w f s h = elim (Option-cases (config db w s)) [
    | inl absent ↦ rw (absent, is_enabled, get_flags, find_by_workspace_id, all_default) refl
    | inr ((id, d), present) ↦
        let (stored, for_d) = db.find_one_sound (is_for w) s (id, d) present in
        elim (Option-cases (d.flags f)) [
          | inl missing ↦ absurd (ground (arith, missing, h.complete id d stored f))
          | inr (b, set) ↦
              rw (present, set, is_enabled, get_flags, find_by_workspace_id, otherwise, spread) refl
        ]
  ]

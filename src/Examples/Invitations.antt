-- ===== src/Examples/Invitations.antt =====
-- Invitations and feature flags with collections and caches in memory.
use task_manager_api.Prelude.{
  ℕ, zero, suc, ℕ_discrete, String-discrete, ◌≡◌, refl, sym, ap, ◌∙◌, true, false, Option, none,
  some, is_some, List, [], ◌∷◌, arith, Exception, ok, err,
}
use task_manager_api.Platform.Memory
use task_manager_api.Platform.Memory.{get}
use task_manager_api.Platform.CacheMemory
use task_manager_api.Platform.KeyedMemory
use task_manager_api.Platform.Tracked.{read_one}
use task_manager_api.Users.{User}
use task_manager_api.Authorization.{member}
use task_manager_api.Workspaces.{Workspace, Membership, Invitation, pending, accepted}
use task_manager_api.Workspaces.Repository
use task_manager_api.Workspaces.Memberships.{new_membership}
use task_manager_api.Workspaces.Invitations.{find_by_token_hash}
use task_manager_api.Workspaces.Refinement.{Pair-discrete, ListKey-discrete}
use task_manager_api.Workspaces.Flags.{
  WorkspaceFeatureFlags, UpdateFeatureFlagsDto, exports, get_flags, is_enabled,
  update_feature_flags,
}
use task_manager_api.Workspaces.FlagWrites.{IsConfigured}
use task_manager_api.Workspaces.FlagUpdates.{
  Requested, update_feature_flags-get_flags, is_enabled-get_flags,
}
use task_manager_api.Workspaces.Settings.{WorkspaceSettings}
use task_manager_api.Workspaces.World.{WorkspaceEnv, WorkspaceWorld}
use task_manager_api.Workspaces.Invite.{accept_invitation, decline_invitation}
use task_manager_api.Workspaces.Answers.{IsOnly, accept_invitation-once}
use task_manager_api.Workspaces.Expired.{Key-discrete, HasFreshCache, IsStuck, expired-IsStuck}
use task_manager_api.Examples.Auth

-- One configuration, with every flag on.
abbrev config : WorkspaceFeatureFlags
config = record { workspace_id = 1; flags = λ f. some true }

abbrev configured : List (Option WorkspaceFeatureFlags)
configured = some config ∷ []

only_config :
    (j : ℕ) (c : WorkspaceFeatureFlags) → get j configured ≡ some c → (j ≡ 0) × (config ≡ c)
only_config zero c h = (refl, ground (arith, h))
only_config (suc j) c h = absurd (cc h)

configured-IsConfigured : IsConfigured (Memory.memory WorkspaceFeatureFlags) configured
configured-IsConfigured = record {
  alone = λ w i j d e found_d found_e for_d for_e.
      let (at_i, _) = only_config i d found_d in
      let (at_j, _) = only_config j e found_e in omega arith;
  complete = λ i c found f.
      let (_, same) = only_config i c found in ap (λ d. is_some (d.flags f)) (sym same);
}

abbrev no_exports : UpdateFeatureFlagsDto
no_exports = record {
  webhooks = none;
  exports = some false;
  reminders = none;
  email_notifications = none;
  advanced_task_filtering = none;
}

update_feature_flags-get_flags_example :
    Requested
      (Memory.memory WorkspaceFeatureFlags)
      1
      no_exports
      configured
      (update_feature_flags (Memory.memory WorkspaceFeatureFlags) 1 no_exports 1 configured)
update_feature_flags-get_flags_example =
    update_feature_flags-get_flags (Memory.memory WorkspaceFeatureFlags) 1 no_exports 1 configured
      configured-IsConfigured refl

is_enabled-get_flags_example :
    some (is_enabled (Memory.memory WorkspaceFeatureFlags) 1 exports configured)
    ≡ get_flags (Memory.memory WorkspaceFeatureFlags) 1 configured exports
is_enabled-get_flags_example =
    is_enabled-get_flags (Memory.memory WorkspaceFeatureFlags) 1 exports configured
      configured-IsConfigured

Space-discrete : Discrete Repository.Key
Space-discrete = hlevel (ℕ_discrete, String-discrete)

Spaces-discrete : Discrete Repository.ListKey
Spaces-discrete = hlevel (ℕ_discrete, String-discrete)

abbrev env : WorkspaceEnv
env = record {
  users = Memory.memory User;
  user_cache = CacheMemory.memory User;
  user_list_cache = CacheMemory.memory _;
  workspaces = Memory.memory Workspace;
  workspace_cache = KeyedMemory.memory Space-discrete;
  workspace_list_cache = KeyedMemory.memory Spaces-discrete;
  memberships = Memory.memory Membership;
  member_cache = KeyedMemory.memory Pair-discrete;
  member_list_cache = KeyedMemory.memory ListKey-discrete;
  invitations = Memory.memory Invitation;
  invitation_cache = KeyedMemory.memory Key-discrete;
  flags = Memory.memory WorkspaceFeatureFlags;
  settings = Memory.memory WorkspaceSettings;
  to_lower = λ t. t;
  trim = λ t. t;
  normal_email = λ t. t;
  normal_slug = λ t. t;
  sorted = λ ids. ids;
  sha256 = λ t. t;
}

abbrev invited : Invitation
invited = record {
  workspace_id = 1;
  email = "ann";
  role = member;
  token_hash = "token";
  expires_at = 100;
  status = pending;
  invited_by = 7;
}

abbrev world : WorkspaceWorld env
world = record {
  users = record { docs = some Auth.ann ∷ []; cached = λ k. none; cached_list = λ k. none };
  workspaces = record {
    docs = none ∷ some (record { name = "team"; slug = "team"; owner_id = 7 }) ∷ [];
    one = record { cached = λ k. none; keys = [] };
    many = record { cached = λ k. none; keys = [] };
  };
  memberships = record {
    docs = [];
    one = record { cached = λ k. none; keys = [] };
    many = record { cached = λ k. none; keys = [] };
  };
  invitations = record {
    docs = some invited ∷ [];
    lists = record { cached = λ k. none; keys = [] };
  };
  flags = [];
  settings = [];
  trail = [];
  mails = [];
}

abbrev joined : WorkspaceWorld env
joined = (accept_invitation env "token" 0 50 0 world).1

accepts : (accept_invitation env "token" 0 50 0 world).0 ≡ ok (0, new_membership 1 0 member)
unfolding accept_invitation read_one
accepts = refl

joined_docs : joined.invitations.docs ≡ some (record invited { status = accepted }) ∷ []
unfolding accept_invitation read_one
joined_docs = refl

alone_in : (o : Option Invitation) (i : ℕ) (d : Invitation) → get i (o ∷ []) ≡ some d → i ≡ 0
alone_in o zero d h = refl
alone_in o (suc i) d h = absurd (cc h)

only_invited : (i : ℕ) (d : Invitation) → get i joined.invitations.docs ≡ some d → i ≡ 0
only_invited i d h =
    alone_in (some (record invited { status = accepted })) i d (sym (ap (get i) joined_docs) ∙ h)

joined-IsOnly : IsOnly env "token" joined
joined-IsOnly i j d e found_d found_e for_d for_e =
    let at_i = only_invited i d found_d in let at_j = only_invited j e found_e in omega arith

accept_invitation-once_example :
    ((e : Exception) × ((accept_invitation env "token" 5 60 1 joined).0 ≡ err e))
    × ((e : Exception) × ((decline_invitation env "token" 5 60 joined).0 ≡ err e))
accept_invitation-once_example =
    accept_invitation-once env "token" 0 50 0 (0, new_membership 1 0 member) world 5 60 1 accepts
      joined-IsOnly

world-HasFreshCache : HasFreshCache env world
world-HasFreshCache = record { tracked = λ k v e. cc; current = λ k v e. cc }

expired-IsStuck_example : IsStuck env "token" 1 (record { email = "ann"; role = member }) 200 world
unfolding find_by_token_hash
expired-IsStuck_example =
    expired-IsStuck env "token" 1 0 200 invited (record { email = "ann"; role = member }) world
      world-HasFreshCache refl refl refl (omega arith) refl refl

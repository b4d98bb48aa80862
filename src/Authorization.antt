-- ===== src/Authorization.antt =====
-- src/common/authorization: the rules of each role (ability.factory.ts, actions.enum.ts,
-- subjects.enum.ts, app-ability.ts) and of src/workspace/domain/enums/workspace-role.enum.ts. A
-- stored text that is no role is `none`. The library CASL is a parameter, with its documented rule:
-- the last rule that is about the question decides, and `manage` stands for every action.
pub mod Policies
pub mod Guard
pub mod Roles
pub mod Tasks
pub mod Admission
use task_manager_api.Prelude.{
  ℕ, ◌≡◌, Bool, true, false, ◌&&◌, ◌||◌, not, Option, none, some, List, [], ◌∷◌, ◌==◌, any, String,
  if◌then◌else◌,
}

pub data Action : Type 0 where
  manage create read update delete : Action

pub data Subject : Type 0 where
  workspace task member invitation comment attachment webhook billing audit_log export : Subject

pub data WorkspaceRole : Type 0 where
  owner admin member viewer : WorkspaceRole

-- What a rule's condition reads of a task.
pub record TaskAbilitySubject : Type 0 where
  pub owner : ℕ
  pub assignees : List ℕ

pub data Condition : Type 0 where
  always : Condition
  owner_is assignees_have : ℕ → Condition

pub record Rule : Type 0 where
  pub action : Action
  pub subject : Subject
  pub condition : Condition
  pub inverted : Bool

abbrev pub can : Action → Subject → Rule
can a s = record { action = a; subject = s; condition = always; inverted = false }

abbrev pub can_if : Action → Subject → Condition → Rule
can_if a s c = record { action = a; subject = s; condition = c; inverted = false }

abbrev pub cannot : Action → Subject → Rule
cannot a s = record { action = a; subject = s; condition = always; inverted = true }

abbrev pub action_number : Action → ℕ
action_number manage = 0
action_number create = 1
action_number read = 2
action_number update = 3
action_number delete = 4

abbrev pub subject_number : Subject → ℕ
subject_number workspace = 0
subject_number task = 1
subject_number member = 2
subject_number invitation = 3
subject_number comment = 4
subject_number attachment = 5
subject_number webhook = 6
subject_number billing = 7
subject_number audit_log = 8
subject_number export = 9

-- A rule is about an action on a kind of subject.
abbrev pub is_about : Action → Subject → Rule → Bool
is_about a s r =
    (action_number r.action == 0 || action_number r.action == action_number a)
    && subject_number r.subject == subject_number s

abbrev pub meets : TaskAbilitySubject → Condition → Bool
meets t always = true
meets t (owner_is id) = t.owner == id
meets t (assignees_have id) = any (λ a. a == id) t.assignees

-- The last rule of the list that is about the question decides; without one the answer is no.
abbrev pub last_allows : (Rule → Bool) → List Rule → Bool
last_allows p [] = false
last_allows p (r ∷ rs) =
    let rest = last_allows p rs in if any p rs then rest else (p r && not r.inverted)

-- `ability.can` on a kind of subject, which asks for at least one subject of it, and on a task.
pub record Casl : Type 1 where
  pub Ability : Type 0
  pub build : List Rule → Ability
  pub can_some : Ability → Action → Subject → Bool
  pub can_task : Ability → Action → TaskAbilitySubject → Bool
  pub can_some-build :
      (rs : List Rule) (a : Action) (s : Subject)
      → can_some (build rs) a s ≡ last_allows (is_about a s) rs
  pub can_task-build :
      (rs : List Rule) (a : Action) (t : TaskAbilitySubject)
      → can_task (build rs) a t ≡ last_allows (λ r. is_about a task r && meets t r.condition) rs

-- `AbilityFactory.createForUser`
abbrev pub create_for_user : List Rule
create_for_user = can create workspace ∷ []

-- `AbilityFactory.createForRole`, as the rules that it hands to CASL.
abbrev pub create_for_role : Option WorkspaceRole → ℕ → List Rule
create_for_role (some owner) id =
    can manage workspace
    ∷ can manage task
    ∷ can manage member
    ∷ can manage invitation
    ∷ can manage comment
    ∷ can manage attachment
    ∷ can manage webhook
    ∷ can manage billing
    ∷ can read audit_log
    ∷ can manage export
    ∷ []
create_for_role (some admin) id =
    can read workspace
    ∷ can manage workspace
    ∷ can create task
    ∷ can read task
    ∷ can update task
    ∷ can delete task
    ∷ can manage member
    ∷ can manage invitation
    ∷ can manage comment
    ∷ can manage attachment
    ∷ can manage webhook
    ∷ can read audit_log
    ∷ can create export
    ∷ can read export
    ∷ []
create_for_role (some member) id =
    can read workspace
    ∷ can create task
    ∷ can read task
    ∷ can read member
    ∷ can_if update task (owner_is id)
    ∷ can_if update task (assignees_have id)
    ∷ can read comment
    ∷ can create comment
    ∷ can read attachment
    ∷ can create export
    ∷ can read export
    ∷ []
create_for_role (some viewer) id =
    can read workspace
    ∷ can read member
    ∷ can read task
    ∷ can read comment
    ∷ can read attachment
    ∷ can read export
    ∷ []
create_for_role none id = cannot manage task ∷ []

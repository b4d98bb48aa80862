-- ===== src/Audit.antt =====
-- src/audit/application/audit.service.ts: an entry is cleaned of secrets and written. The trail is
-- the list of written entries, the newest first.
pub mod Sanitized
use Prim.Native.Char.{code}
use Prim.Native.String
use task_manager_api.Prelude.{
  ℕ, Bool, true, false, Option, none, some, List, [], ◌∷◌, String, ◌==◌, if◌then◌else◌, str_eq,
}

-- A value of `meta`.
pub data MetaValue : Type 0 where
  text : String → MetaValue
  id : ℕ → MetaValue
  ids : List ℕ → MetaValue
  texts : List String → MetaValue

abbrev pub Meta : Type 0
Meta = List (String × MetaValue)

pub record Entry : Type 0 where
  pub actor_id : Option ℕ
  pub action : String
  pub resource : String
  pub workspace_id : Option ℕ
  pub ip : Option String
  pub meta : Option Meta

unfoldable pub sensitive_keys : List String
sensitive_keys =
    "password" ∷ "passwordhash" ∷ "accesstoken" ∷ "access_token" ∷ "refreshtoken" ∷ "refresh_token"
    ∷ "token" ∷ "tokenhash" ∷ "secret" ∷ "clientsecret" ∷ "apikey" ∷ "authorization" ∷ "cookie"
    ∷ "verificationtoken" ∷ "verification_token" ∷ "resettoken" ∷ "reset_token"
    ∷ "passwordresettoken" ∷ "password_reset_token" ∷ []

unfoldable pub contains : List String → String → Bool
contains [] key = false
contains (k ∷ ks) key = if str_eq k key then true else contains ks key

-- `key.replace(/-/g, '')`
unfoldable pub without_dashes : String → String
without_dashes String.[] = String.[]
without_dashes (String.◌∷◌ c s) =
    let rest = without_dashes s in if code c == 45 then rest else String.◌∷◌ c rest

abbrev pub redacted : MetaValue
redacted = text "[REDACTED]"

-- `toLowerCase` is the language's; its table of letters is a parameter.
module _ (to_lower : String → String) where
  unfoldable pub is_sensitive : String → Bool
  unfolding contains sensitive_keys without_dashes
  is_sensitive key = contains sensitive_keys (to_lower (without_dashes key))

  unfoldable pub sanitize : Meta → Meta
  sanitize [] = []
  sanitize ((key, value) ∷ m) = (key, if is_sensitive key then redacted else value) ∷ sanitize m

  unfoldable pub log : Entry → List Entry → List Entry
  log e trail = elim e.meta [
    | none ↦ e ∷ trail
    | some m ↦ record e { meta = some (sanitize m) } ∷ trail
  ]

-- ===== src/Users.antt =====
-- src/users: the user's document (Schema/user.schema.ts) and the repository
-- (infrastructure/repositories/user.repository.ts) over the database and its two caches. A
-- field that a query does not select is `none` in what it returns.
pub mod Repository
pub mod Coherence
use task_manager_api.Prelude.{
  ℕ, ◌*◌, Bool, true, false, ◌&&◌, not, Option, none, some, List, String, ltb, if◌then◌else◌,
  str_eq,
}
use task_manager_api.Platform.Collection.{Collection}
use task_manager_api.Platform.Cache.{Cache}

pub record User : Type 0 where
  pub email : String
  pub password : Option String
  pub role : String
  pub refresh_token_hash : Option String
  pub token_family : Option String
  pub current_token_id : Option String
  pub email_verified : Bool
  pub email_verification_token_hash : Option String
  pub email_verification_expires_at : Option ℕ
  pub password_reset_token_hash : Option String
  pub password_reset_expires_at : Option ℕ

-- What a query returns of a document: the fields with `select: false` are left out.
abbrev pub selected : User → User
selected u = record u {
  password = none;
  refresh_token_hash = none;
  current_token_id = none;
  email_verification_token_hash = none;
  email_verification_expires_at = none;
  password_reset_token_hash = none;
  password_reset_expires_at = none;
}

-- `.select('+password')`
abbrev pub with_password : User → User
with_password u = record (selected u) { password = u.password }

-- `.select('+refreshTokenHash +currentTokenId')`
abbrev pub with_refresh_token : User → User
with_refresh_token u = record (selected u) {
  refresh_token_hash = u.refresh_token_hash;
  current_token_id = u.current_token_id;
}

-- A condition `{ field: text }` and a condition `{ field: { $gt: now } }` on an optional field.
abbrev pub equals : Option String → String → Bool
equals none text = false
equals (some t) text = str_eq t text

abbrev pub is_after : Option ℕ → ℕ → Bool
is_after none now = false
is_after (some t) now = ltb now t

-- `new Date() ` and the tokens' hashes are arguments.
unfoldable pub new_user : String → String → String → ℕ → User
new_user email password token_hash expires_at = record {
  email = email;
  password = some password;
  role = "user";
  refresh_token_hash = none;
  token_family = none;
  current_token_id = none;
  email_verified = false;
  email_verification_token_hash = some token_hash;
  email_verification_expires_at = some expires_at;
  password_reset_token_hash = none;
  password_reset_expires_at = none;
}

-- The updates.
unfoldable pub cleared_refresh : User → User
cleared_refresh u = record u {
  refresh_token_hash = none;
  token_family = none;
  current_token_id = none;
}

unfoldable pub updated_refresh : Option String → Option String → Option String → User → User
updated_refresh token_hash family token_id u = record u {
  refresh_token_hash = token_hash;
  token_family = family;
  current_token_id = token_id;
}

unfoldable pub with_verification_token : String → ℕ → User → User
with_verification_token token_hash expires_at u = record u {
  email_verified = false;
  email_verification_token_hash = some token_hash;
  email_verification_expires_at = some expires_at;
}

unfoldable pub verified : User → User
verified u = record u {
  email_verified = true;
  email_verification_token_hash = none;
  email_verification_expires_at = none;
}

unfoldable pub cleared_verification : User → User
cleared_verification u = record u {
  email_verification_token_hash = none;
  email_verification_expires_at = none;
}

unfoldable pub with_reset_token : String → ℕ → User → User
with_reset_token token_hash expires_at u = record u {
  password_reset_token_hash = some token_hash;
  password_reset_expires_at = some expires_at;
}

unfoldable pub cleared_reset : User → User
cleared_reset u = record u { password_reset_token_hash = none; password_reset_expires_at = none }

unfoldable pub with_new_password : String → User → User
with_new_password password_hash u = record u { password = some password_hash }

-- The filters of `verifyEmail` and `findByPasswordResetToken`.
unfoldable pub awaits_verification : String → ℕ → User → Bool
awaits_verification token_hash now u =
    equals u.email_verification_token_hash token_hash
    && is_after u.email_verification_expires_at now
    && not u.email_verified

unfoldable pub awaits_reset : String → ℕ → User → Bool
awaits_reset token_hash now u =
    equals u.password_reset_token_hash token_hash && is_after u.password_reset_expires_at now

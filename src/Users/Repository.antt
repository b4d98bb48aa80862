-- ===== src/Users/Repository.antt =====
-- src/users/infrastructure/repositories/user.repository.ts, method by method. The caches hold a
-- user under `user:<id>` and the list under `users:all`, for sixty seconds each.
use task_manager_api.Prelude.{ℕ, ◌*◌, true, Option, none, some, List, map, String, str_eq}
use task_manager_api.Platform.Collection.{Collection}
use task_manager_api.Platform.Cache.{Cache}
use task_manager_api.Users.{
  User, selected, with_password, with_refresh_token, new_user, cleared_refresh, updated_refresh,
  with_verification_token, verified, cleared_verification, with_reset_token, cleared_reset,
  with_new_password, awaits_verification, awaits_reset,
}

-- A document with its id.
abbrev pub Found : Type 0
Found = ℕ × User

abbrev found_as : (User → User) → Option Found → Option Found
found_as view none = none
found_as view (some (id, u)) = some (id, view u)

abbrev with_id : ℕ → Option User → Option Found
with_id id none = none
with_id id (some u) = some (id, u)

abbrev pub cache_time : ℕ
cache_time = 60 * 1000

-- The key of the one entry of the list's cache, `users:all`.
abbrev pub all_key : ℕ
all_key = 0

module _ (db : Collection User) (cache : Cache User) (list_cache : Cache (List Found)) where
  pub record Users : Type 0 where
    pub docs : db.Store
    pub cached : cache.Store
    pub cached_list : list_cache.Store

  unfoldable pub invalidate : ℕ → Users → Users
  invalidate id s = record s {
    cached = cache.del id s.cached;
    cached_list = list_cache.del all_key s.cached_list;
  }

  -- `findByIdAndUpdate(id, update)`, and the caches dropped.
  unfoldable pub update_by_id : ℕ → (User → User) → Users → Option Found × Users
  unfolding invalidate
  update_by_id id update s =
      let (u, docs) = db.find_one_and_update id (λ _. true) update s.docs in
      (found_as selected (with_id id u), invalidate id (record s { docs = docs }))

  unfoldable pub find_by_email : String → Users → Option Found
  find_by_email email s = found_as with_password (db.find_one (λ u. str_eq u.email email) s.docs)

  -- `findByEmailWithPassword`
  unfoldable pub find_by_email_with_password : String → Users → Option Found
  find_by_email_with_password email s =
      found_as with_password (db.find_one (λ u. str_eq u.email email) s.docs)

  -- `findByEmailWithoutPassword`, which looks for the lower-cased email.
  unfoldable pub find_by_email_without_password : (String → String) → String → Users → Option Found
  find_by_email_without_password to_lower email s =
      found_as selected (db.find_one (λ u. str_eq u.email (to_lower email)) s.docs)

  unfoldable pub find_by_id : ℕ → Users → Option Found × Users
  find_by_id id s = elim (cache.get id s.cached) [
    | some u ↦ (some (id, u), s)
    | none ↦ elim (db.find_by_id id s.docs) [
      | none ↦ (none, s)
      | some u ↦ (
        some (id, selected u),
        record s { cached = cache.set id (selected u) cache_time s.cached },
      )
    ]
  ]

  unfoldable pub find_all : Users → List Found × Users
  find_all s = elim (list_cache.get all_key s.cached_list) [
    | some us ↦ (us, s)
    | none ↦
        let us = map (λ x. (x.0, selected x.1)) (db.find_where (λ _. true) s.docs) in
        (us, record s { cached_list = list_cache.set all_key us cache_time s.cached_list })
  ]

  -- The document just written is there when it is read back, so `User creation failed` is not thrown.
  unfoldable pub create_user : ℕ → String → String → String → ℕ → Users → Found × Users
  create_user fresh email password token_hash expires_at s =
      let u = new_user email password token_hash expires_at in
      (
        (fresh, selected u),
        record s {
          docs = db.insert fresh u s.docs;
          cached_list = list_cache.del all_key s.cached_list;
        },
      )

  unfoldable pub find_by_id_with_refresh_token : ℕ → Users → Option Found
  find_by_id_with_refresh_token id s =
      found_as with_refresh_token (with_id id (db.find_by_id id s.docs))

  unfoldable pub clear_refresh_token : ℕ → Users → Users
  unfolding update_by_id
  clear_refresh_token id s = (update_by_id id cleared_refresh s).1

  unfoldable pub delete_user : ℕ → Users → Option Found × Users
  unfolding invalidate
  delete_user id s =
      let (u, docs) = db.find_one_and_delete id s.docs in
      let s' = invalidate id (record s { docs = docs }) in
      (
        found_as selected (with_id id u),
        record s' { cached_list = list_cache.del all_key s'.cached_list },
      )

  unfoldable pub update_refresh_token :
      ℕ → Option String → Option String → Option String → Users → Users
  unfolding update_by_id
  update_refresh_token id token_hash family token_id s =
      (update_by_id id (updated_refresh token_hash family token_id) s).1

  unfoldable pub set_email_verification_token : ℕ → String → ℕ → Users → Users
  unfolding update_by_id
  set_email_verification_token id token_hash expires_at s =
      (update_by_id id (with_verification_token token_hash expires_at) s).1

  unfoldable pub verify_email : String → ℕ → Users → Option Found × Users
  unfolding invalidate
  verify_email token_hash now s = elim (db.find_one (awaits_verification token_hash now) s.docs) [
    | none ↦ (none, s)
    | some (id, u) ↦
        let (u', docs) =
          db.find_one_and_update id (awaits_verification token_hash now) verified s.docs in
        (found_as selected (with_id id u'), invalidate id (record s { docs = docs }))
  ]

  unfoldable pub clear_email_verification_token : ℕ → Users → Users
  unfolding update_by_id
  clear_email_verification_token id s = (update_by_id id cleared_verification s).1

  unfoldable pub set_password_reset_token : ℕ → String → ℕ → Users → Users
  unfolding update_by_id
  set_password_reset_token id token_hash expires_at s =
      (update_by_id id (with_reset_token token_hash expires_at) s).1

  unfoldable pub find_by_password_reset_token : String → ℕ → Users → Option Found
  find_by_password_reset_token token_hash now s =
      found_as with_password (db.find_one (awaits_reset token_hash now) s.docs)

  unfoldable pub clear_password_reset_token : ℕ → Users → Users
  unfolding update_by_id
  clear_password_reset_token id s = (update_by_id id cleared_reset s).1

  unfoldable pub update_password : ℕ → String → Users → Users
  unfolding update_by_id
  update_password id password_hash s = (update_by_id id (with_new_password password_hash) s).1

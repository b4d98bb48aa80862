-- ===== src/Idempotency/Interceptor.antt =====
-- src/common/idempotency/idempotency.interceptor.ts. The route handler is a function on the state
-- of the rest of the program; the SHA-256 digest of the request's JSON is a parameter.
use Prim.Native.Char.{code}
use Prim.Native.String
use task_manager_api.Prelude.{
  ℕ, ◌+◌, Bool, true, false, ◌&&◌, ◌||◌, not, Option, none, some, String, ltb, leb, ◌==◌,
  if◌then◌else◌, str_eq, Result, ok, err, Exception, conflict,
}
use task_manager_api.Platform.Redis.{Redis, or_else}
use task_manager_api.Idempotency.{
  IdempotencyRecord, processing, completed, reserve, complete, release,
}

-- The white space that `trim` removes, by code point.
unfoldable pub is_space : ℕ → Bool
is_space c =
    (leb 9 c && leb c 13)
    || c == 32
    || c == 160
    || c == 5760
    || (leb 8192 c && leb c 8202)
    || c == 8232
    || c == 8233
    || c == 8239
    || c == 8287
    || c == 12288
    || c == 65279

-- `text.trim().length === 0`
unfoldable pub is_blank : String → Bool
unfolding is_space
is_blank String.[] = true
is_blank (String.◌∷◌ c s) = is_space (code c) && is_blank s

-- `text.length`, in UTF-16 units.
unfoldable pub utf16_length : String → ℕ
utf16_length String.[] = 0
utf16_length (String.◌∷◌ c s) = (if ltb (code c) 65536 then 1 else 2) + utf16_length s

-- `url.split('?')[0]`
unfoldable pub before_query : String → String
before_query String.[] = String.[]
before_query (String.◌∷◌ c s) =
    let rest = before_query s in if code c == 63 then String.[] else String.◌∷◌ c rest

abbrev is_empty : String → Bool
is_empty String.[] = true
is_empty (String.◌∷◌ c s) = false

pub record Request (Json : Type 0) : Type 0 where
  pub idempotency_key : Option String
  pub user_id : Option String
  pub method : String
  pub base_url : String
  pub url : String
  pub original_url : Option String
  pub path : String
  pub body : Option Json

-- What the fingerprint is taken of.
pub record Fingerprinted (Json : Type 0) : Type 0 where
  pub user_id : String
  pub method : String
  pub path : String
  pub body : Json

pub record Reply (Json : Type 0) : Type 0 where
  pub status : Option ℕ
  pub body : Option Json

-- The three early returns, and the key that passes them.
unfoldable pub check_header : Option String → Result String
unfolding is_blank utf16_length
check_header none = err conflict
check_header (some key) =
    if is_blank key
    then err conflict
    else if ltb 255 (utf16_length key)
    then err conflict
    else ok key

abbrev path_of_url : Option String → String → String
path_of_url none path = path
path_of_url (some url) path = before_query url

module _ {Json : Type 0} where
  unfoldable pub build_scope : Request Json → String
  build_scope r =
      let url = if is_empty r.base_url then r.url else r.base_url in
      String.◌++◌ (or_else r.user_id "anonymous")
        (String.◌++◌ ":" (String.◌++◌ r.method (String.◌++◌ ":" url)))

  module _ (empty_object : Json) (digest : Fingerprinted Json → String)
      (redis : Redis (IdempotencyRecord Json)) where
    unfoldable pub build_fingerprint : Request Json → String
    unfolding before_query
    build_fingerprint r = digest (record {
      user_id = or_else r.user_id "anonymous";
      method = r.method;
      path = path_of_url r.original_url r.path;
      body = or_else r.body empty_object;
    })

    pub data Admission : Type 0 where
      rejects : Exception → Admission
      replays : Reply Json → Admission
      proceeds : Admission

    -- What the interceptor makes of the answer of `reserve`.
    unfoldable pub admit : String → Bool × Option (IdempotencyRecord Json) → Admission
    admit fingerprint (true, r) = proceeds
    admit fingerprint (false, none) = proceeds
    admit fingerprint (false, some r) =
        if not (str_eq r.fingerprint fingerprint) then rejects conflict else elim r.status [
          | processing ↦ rejects conflict
          | completed ↦ replays (record { status = r.status_code; body = r.response_body })
        ]

    module _ {App : Type 0} (handle : App → Result (ℕ × Option Json) × App) where
      abbrev pub Run : Type 0
      Run = Result (Reply Json) × App × redis.Store

      -- `next.handle()` with what follows it: `complete`, or the key released and the error thrown.
      unfoldable pub run_handler : String → String → String → App → redis.Store → Run
      run_handler scope key fingerprint app s =
          let (r, app') = handle app in
          elim r [
            | ok (code', body') ↦ (
              ok (record { status = some code'; body = body' }),
              app',
              complete redis scope key
                  (record {
                    status = completed;
                    fingerprint = fingerprint;
                    status_code = some code';
                    response_body = body';
                  })
                  s,
            )
            | err e ↦ (err e, app', release redis scope key s)
          ]

      unfoldable pub intercept_key : String → Request Json → App → redis.Store → Run
      unfolding admit run_handler
      intercept_key key r app s =
          let fingerprint = build_fingerprint r in
          let (answer, s') = reserve redis (build_scope r) key fingerprint s in
          elim (admit fingerprint answer) [
            | rejects e ↦ (err e, app, s')
            | replays reply ↦ (ok reply, app, s')
            | proceeds ↦ run_handler (build_scope r) key fingerprint app s'
          ]

      unfoldable pub intercept : Request Json → App → redis.Store → Run
      unfolding check_header
      intercept r app s = elim (check_header r.idempotency_key) [
        | err e ↦ (err e, app, s)
        | ok key ↦ intercept_key key r app s
      ]

-- ===== src/Idempotency.antt =====
-- src/common/idempotency: a request with an Idempotency-Key runs once. Here the records in Redis
-- (idempotency.service.ts). A stored record is the value itself: JSON.parse undoes JSON.stringify.
pub mod Interceptor
pub mod Replay
pub mod Requests
pub mod Exclusion
pub mod Expiry
use Prim.Native.String
use task_manager_api.Prelude.{ℕ, Bool, true, false, Option, none, some, String, if◌then◌else◌}
use task_manager_api.Platform.Redis.{Redis}

pub data RecordStatus : Type 0 where
  processing completed : RecordStatus

pub record IdempotencyRecord (Json : Type 0) : Type 0 where
  pub status : RecordStatus
  pub fingerprint : String
  pub status_code : Option ℕ
  pub response_body : Option Json

abbrev pub redis_prefix : String
redis_prefix = "idempotency"

abbrev pub ttl_seconds : ℕ
ttl_seconds = 300

unfoldable pub build_key : String → String → String
build_key scope key =
    String.◌++◌ redis_prefix (String.◌++◌ ":" (String.◌++◌ scope (String.◌++◌ ":" key)))

module _ {Json : Type 0} where
  -- The record of a request that has begun.
  abbrev pub begun : String → IdempotencyRecord Json
  begun fingerprint = record {
    status = processing;
    fingerprint = fingerprint;
    status_code = none;
    response_body = none;
  }

  module _ (redis : Redis (IdempotencyRecord Json)) where
    -- `get`
    unfoldable pub stored : String → String → redis.Store → Option (IdempotencyRecord Json)
    stored scope key s = redis.get (build_key scope key) s

    -- The flag `acquired`, and the record that was there.
    unfoldable pub reserve :
        String
        → String
        → String
        → redis.Store
        → (Bool × Option (IdempotencyRecord Json)) × redis.Store
    unfolding stored
    reserve scope key fingerprint s =
        let (acquired, s') =
          redis.set_ex_nx (build_key scope key) (begun fingerprint) ttl_seconds s in
        if acquired then ((true, none), s') else ((false, stored scope key s'), s')

    unfoldable pub complete : String → String → IdempotencyRecord Json → redis.Store → redis.Store
    complete scope key r s =
        redis.set_ex (build_key scope key) (record r { status = completed }) ttl_seconds s

    -- `delete`
    unfoldable pub release : String → String → redis.Store → redis.Store
    release scope key s = redis.del (build_key scope key) s

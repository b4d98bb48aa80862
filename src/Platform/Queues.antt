-- ===== src/Platform/Queues.antt =====
-- The BullMQ queues (src/infrastructure/queues/queue.constants.ts names them). A job is added under
-- its `jobId`; a second job under the same id is ignored; `add` throws when Redis refuses.
use task_manager_api.Prelude.{ℕ, ◌≡◌, Bool, String}

pub data QueueName : Type 0 where
  email reminder webhook export dead_letter : QueueName

pub data Added {ℓ} (Store : Type ℓ) : Type ℓ where
  added : Store → Added Store
  refused : String → Added Store

pub record Queues (Job : Type 0) : Type 1 where
  pub Store : Type 0
  pub add : QueueName → ℕ → Job → Store → Added Store
  pub has_job : QueueName → ℕ → Store → Bool
  pub added_has :
      (q : QueueName) (i : ℕ) (j : Job) (s s' : Store)
      → add q i j s ≡ added s'
      → has_job q i s' ≡ Bool.true
  -- Adding a job removes none.
  pub added_keeps :
      (q q' : QueueName) (i i' : ℕ) (j : Job) (s s' : Store)
      → add q i j s ≡ added s'
      → has_job q' i' s ≡ Bool.true
      → has_job q' i' s' ≡ Bool.true

-- ===== src/Examples/Outbox.antt =====
-- src/outbox on a collection in memory.
use task_manager_api.Prelude.{
  ℕ, ◌+◌, ◌≡◌, refl, ◌≤◌, true, Option, none, some, List, [], ◌∷◌, String, arith, any,
}
use task_manager_api.Platform.Collection.{Collection, has_id}
use task_manager_api.Platform.Memory.{memory}
use task_manager_api.Outbox.{
  OutboxEvent, OutboxEventStatus, pending, processing, completed, is_due, find_pending,
  mark_processing, mark_completed, mark_failed, start, give_up,
}
use task_manager_api.Outbox.Lifecycle.{
  claims, completes, fails, here, later, claimed, finished, broken,
}
use task_manager_api.Outbox.Claims.{claim_exclusive, completed_final, attempts_bounds}
use task_manager_api.Outbox.Retry.{exhausted_found_again}

abbrev event : OutboxEventStatus → ℕ → OutboxEvent String
event status attempts = record {
  event_type = "TASK_CREATED";
  aggregate_type = "TASK";
  aggregate_id = 40;
  workspace_id = some 3;
  correlation_id = none;
  payload = "{}";
  status = status;
  attempts = attempts;
  available_at = none;
  processed_at = none;
  last_error = none;
  created_at = 100;
}

abbrev Db : Collection (OutboxEvent String)
Db = memory (OutboxEvent String)

abbrev one_pending : List (Option (OutboxEvent String))
one_pending = some (event pending 0) ∷ []

abbrev one_processing : ℕ → List (Option (OutboxEvent String))
one_processing n = some (event processing n) ∷ []

claim_exclusive_example :
    (mark_processing Db 0 (mark_completed Db 0 500 (mark_processing Db 0 one_pending).1).1).0 ≡ none
unfolding mark_processing start
claim_exclusive_example =
    claim_exclusive Db 0 one_pending _ (completes 0 ∷ []) (event processing 1) refl
      ((λ h. ground arith), tt) (later (finished 0 500) here)

completed_final_example :
    Db.find_by_id 0 (mark_failed Db 0 "late" none (some (event completed 1) ∷ [])).1
    ≡ some (event completed 1)
completed_final_example =
    completed_final Db 0 (some (event completed 1) ∷ []) _ (fails 0 ∷ []) (event completed 1) refl
      refl (later (broken 0 "late" none) here)

attempts_bounds_example :
    (e : OutboxEvent String) × (Db.find_by_id 0 (mark_processing Db 0 one_pending).1 ≡ some e)
    × (0 ≤ e.attempts)
    × (e.attempts ≤ 0 + 1)
attempts_bounds_example =
    attempts_bounds Db 0 one_pending _ (claims 0 ∷ []) (event pending 0) refl
      (later (claimed 0) here)

exhausted_found_again_example :
    any (has_id 0) (find_pending Db 50 1 (mark_failed Db 0 "down" (some 900) (one_processing 5)).1)
    ≡ true
unfolding find_pending mark_failed give_up is_due
exhausted_found_again_example =
    exhausted_found_again Db 0 (event processing 5) (one_processing 5) "down" 900 50 1 refl refl
      (omega arith) (omega arith)

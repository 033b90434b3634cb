-- ===== src/Orchestrator/Examples.antt =====
-- Instances for cpp/src/orchestrator_service.cpp.
use mini_ocs_nos.Base.{◌+◌, ◌*◌, ◌^◌, ◌≤◌, ◌≡◌, refl, arith, ◌⊎◌}
use mini_ocs_nos.DeviceTypes.{remove}
use mini_ocs_nos.ConnectionStateMachine.{
  applying, removing, failed, status_eq, can_transition, require_transition,
}
use mini_ocs_nos.Orchestrator.{
  ApplyRetryPolicy, double_delay, retry_at_ns, executing, start_apply_transition,
}
use mini_ocs_nos.Orchestrator.Backoff.{retry_at_ns_bounds, retry_at_ns_doubles}
use mini_ocs_nos.Orchestrator.Start.{IsNear, start_apply_transition-returns}

abbrev policy : ApplyRetryPolicy
policy = record { max_retries = 3; base_backoff = 100; max_backoff = 5000 }

retry_at_ns_third : retry_at_ns 7 3 policy ≡ 400000007
unfolding retry_at_ns double_delay
retry_at_ns_third = refl

retry_at_ns_bounds_example :
    (7 + 100 * 1000000 ≤ retry_at_ns 7 9 policy) × (retry_at_ns 7 9 policy ≤ 7 + 5000 * 1000000)
retry_at_ns_bounds_example = retry_at_ns_bounds 7 9 policy refl (omega arith)

start_apply_transition-returns_example :
    (removing ≡ executing remove)
    × ((failed ≡ applying) ⊎ (failed ≡ removing) ⊎ IsNear failed removing)
unfolding start_apply_transition require_transition can_transition status_eq
start_apply_transition-returns_example = start_apply_transition-returns failed removing remove refl

retry_at_ns_doubles_example : retry_at_ns 7 (4 + 2) policy ≡ 7 + 100 * 2 ^ (4 + 1) * 1000000
retry_at_ns_doubles_example =
    retry_at_ns_doubles 7 4 policy (omega arith) (omega arith) (omega arith)

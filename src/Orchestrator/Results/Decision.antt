-- ===== src/Orchestrator/Results/Decision.antt =====
-- What processResultOne of cpp/src/orchestrator_service.cpp decides for the row of a connection.
use mini_ocs_nos.Base.{
  ℕ, Bool, true, false, not, ◌&&◌, ◌||◌, Option, none, some, [], ltb, leb, if◌then◌else◌,
}
use mini_ocs_nos.Base.Text.{Text, codes}
use mini_ocs_nos.Base.TextMap.{TextMap, find, insert_or_assign}
use mini_ocs_nos.Base.Outcome.{Outcome, returns, throws, Exception, ◌>>=◌, ◌>>◌}
use mini_ocs_nos.ConnectionStateMachine
use mini_ocs_nos.ConnectionStateMachine.{
  ConnectionApplyStatus, absent, applying, active, removing, failed, retry_wait, status_eq,
  require_transition,
}
use mini_ocs_nos.RedisRepository.Events.{EventEnvelope}
use mini_ocs_nos.RedisRepository.Endpoint.{strip_prefix}
use mini_ocs_nos.Orchestrator.Decode.{is_text, current_status, current_version}

-- std::string_view::starts_with
abbrev pub starts_with : Text → Text → Bool
starts_with prefix s = elim (strip_prefix prefix s) [ none ↦ false | some rest ↦ true ]

unfoldable pub is_generation_recovery : Text → Bool
is_generation_recovery command_id = starts_with (codes "hwsim-recovery:") command_id

unfoldable pub is_reconciliation : Text → Bool
is_reconciliation command_id = starts_with (codes "reconcile:") command_id

-- The result of a command that the synchronisation service made up on its own.
unfoldable pub is_recovery_result : Text → Text → Bool
unfolding is_generation_recovery is_reconciliation
is_recovery_result command_id event_id =
    is_generation_recovery command_id
    || is_generation_recovery event_id
    || is_reconciliation command_id
    || is_reconciliation event_id

unfoldable pub is_recovering : Bool → Bool → ConnectionApplyStatus → Bool
unfolding status_eq
is_recovering recovery_result success current =
    recovery_result && success && (status_eq current failed || status_eq current retry_wait)

-- A result that changes nothing; `version` is the result's.
unfoldable pub is_stale : ℕ → ℕ → ConnectionApplyStatus → Bool → Bool
unfolding status_eq
is_stale version application_version current recovering =
    leb version application_version
    && (ltb version application_version
        || status_eq current active
        || status_eq current absent
        || (status_eq current failed && not recovering))

-- The status after the result; `removes` tells whether the row's operation is REMOVE.
unfoldable pub status_after : Bool → Bool → Bool → ConnectionApplyStatus → ConnectionApplyStatus
unfolding status_eq
status_after success recovery_result removes current =
    if not success
    then failed
    else if status_eq current removing || (recovery_result && removes)
    then absent
    else active

abbrev pub executing_for : ConnectionApplyStatus → ConnectionApplyStatus
executing_for next = if status_eq next absent then removing else applying

-- The transitions that are asked for.
unfoldable pub require_result_transitions :
    Bool → ConnectionApplyStatus → ConnectionApplyStatus → Outcome (Unit {0})
unfolding require_transition
require_result_transitions recovering current next =
    if recovering
    then (if status_eq current failed then require_transition current retry_wait else returns tt)
      >> (require_transition retry_wait (executing_for next)
          >> require_transition (executing_for next) next)
    else require_transition current next

-- The row with the outcome of the result.
unfoldable pub result_row : Bool → ConnectionApplyStatus → Text → Text → TextMap Text → TextMap Text
result_row success next error_code error_message application =
    let gone = status_eq next absent in
    let changed =
      insert_or_assign (codes "last_error_message") (if gone then [] else error_message) (
        insert_or_assign (codes "last_error_code") (if gone then [] else error_code) (
          insert_or_assign (codes "apply_status") (ConnectionStateMachine.to_string next)
            application)) in
    if success
    then insert_or_assign (codes "failed_command_id") [] (
        insert_or_assign (codes "next_retry_at_ns") []
          (insert_or_assign (codes "retry_attempt") (codes "0") changed))
    else changed

-- What a result of a version decides for a row of a version and a status: none for a result that
-- changes nothing, or the new status.
unfoldable pub decide_status :
    ℕ → Bool → Bool → Bool → ℕ → ConnectionApplyStatus → Outcome (Option ConnectionApplyStatus)
unfolding is_recovering is_stale status_after require_result_transitions
decide_status version success recovery_result removes application_version current =
    let recovering = is_recovering recovery_result success current in
    let next = status_after success recovery_result removes current in
    if is_stale version application_version current recovering
    then returns none
    else if ltb application_version version
    then throws Exception.runtime_error
    else require_result_transitions recovering current next >> returns (some next)

abbrev pub removes_of : Option Text → Bool
removes_of none = false
removes_of (some operation) = is_text operation (codes "REMOVE")

-- `read_id` is the reading of the command id, which the source does after that of the row.
unfoldable pub decide :
    EventEnvelope → Bool → Outcome Text → TextMap Text → Outcome (Option ConnectionApplyStatus)
unfolding is_recovery_result decide_status
decide event success read_id application = do
  application_version ← current_version application
  current ← current_status application
  command_id ← read_id
  decide_status event.desired_version success (is_recovery_result command_id event.event_id)
      (removes_of (find (codes "operation") application)) application_version current

-- ===== src/Orchestrator/Results.antt =====
-- processResultOne of cpp/src/orchestrator_service.cpp: what a result of the switch does to the
-- row of its connection.
pub mod Decision
pub mod Statuses
pub mod Rows
use mini_ocs_nos.Base.{
  ℕ, Bool, true, false, not, ◌&&◌, ◌||◌, Option, none, some, List, [], ◌∷◌, ◌++◌, ite, ltb, leb,
  if◌then◌else◌,
}
use mini_ocs_nos.Base.Text.{Text, codes, text_discrete}
use mini_ocs_nos.Base.TextMap.{TextMap, find, insert_or_assign}
use mini_ocs_nos.Base.Decimal.{to_string}
use mini_ocs_nos.Base.Outcome.{Outcome, returns, throws, Exception, ◌>>=◌, ◌>>◌}
use mini_ocs_nos.Errors
use mini_ocs_nos.Errors.{ErrorCode}
use mini_ocs_nos.ConnectionStateMachine
use mini_ocs_nos.ConnectionStateMachine.{
  ConnectionApplyStatus, absent, applying, active, removing, failed, retry_wait, status_eq,
  require_transition,
}
use mini_ocs_nos.RedisKeys.Tables.{connection_app_key, connection_device_key}
use mini_ocs_nos.RedisKeys.Orch.{
  orch_result_application_publication_key, orch_result_device_publication_key,
}
use mini_ocs_nos.RedisRepository.Events.{EventEnvelope, StreamMessage}
use mini_ocs_nos.RedisRepository.Endpoint.{strip_prefix}
use mini_ocs_nos.RedisRepository.Server.{Server}
use mini_ocs_nos.RedisRepository.Writes.{get_hash, has_no_fields}
use mini_ocs_nos.Json.{JsonLibrary}
use mini_ocs_nos.Orchestrator.{ApplyRetryPolicy}
use mini_ocs_nos.Orchestrator.Alarms.{clear_timeout_alarm}
use mini_ocs_nos.Orchestrator.Timeouts.{handle_timeout_result}
use mini_ocs_nos.Orchestrator.Decode.{is_text, current_status, current_version}
use mini_ocs_nos.Orchestrator.Databases.{
  Databases, device_results, next_message, row, publish_versioned, has_hash, acknowledge,
}
use mini_ocs_nos.Orchestrator.Results.Decision.{
  starts_with, is_generation_recovery, is_reconciliation, is_recovery_result, is_recovering,
  is_stale, status_after, executing_for, require_result_transitions, result_row, decide_status,
  removes_of, decide,
}

-- The position of a text in another, as std::string::find; what stands before it.
unfoldable pub before_text : Text → Text → Option Text
before_text needle [] = if starts_with needle [] then some [] else none
before_text needle (c ∷ s) =
    let rest = before_text needle s in
    if starts_with needle (c ∷ s)
    then some []
    else elim rest [ none ↦ none | some front ↦ some (c ∷ front) ]

module _ (S : Server) (J : JsonLibrary) where
  unfoldable pub result_command_id : EventEnvelope → J.Value → Outcome Text
  unfolding before_text
  result_command_id event result = J.value_text result (codes "command_id") [] >>= λ command_id.
      elim command_id [
        | c ∷ rest ↦ returns (c ∷ rest)
        | [] ↦ elim (before_text (codes ":result") event.event_id) [
          | none ↦ throws Exception.invalid_argument
          | some front ↦ returns front
        ]
      ]

  -- The marker of a result in either database.
  abbrev pub result_marker : EventEnvelope → TextMap Text
  result_marker event = row (
      (codes "result_event_id", event.event_id)
      ∷ (codes "desired_version", to_string event.desired_version)
      ∷ [])

  abbrev pub app_key : EventEnvelope → Text
  app_key event = connection_app_key event.device event.resource_id

  abbrev pub device_key : EventEnvelope → Text
  device_key event = connection_device_key event.device event.resource_id

-- processResultOne. `after_phase` is the caller's function, `policy` the service's, and the other
-- arguments are the times at which the clock is read.
module _ (S : Server) (J : JsonLibrary) (policy : ApplyRetryPolicy)
    (after_phase : Text → Outcome (Unit {0})) (retry_now event_now clear_now : ℕ)
    (alarm_now : Text → ℕ) where
  -- The two tables, the device's first.
  unfoldable pub publish_result :
      EventEnvelope → ConnectionApplyStatus → TextMap Text → Databases S → Outcome (Databases S)
  unfolding publish_versioned
  publish_result event next application dbs = do
    device ←
        publish_versioned S (orch_result_device_publication_key event.event_id)
          (result_marker S J event)
          ((device_key S J event, if status_eq next absent then [] else application) ∷ [])
          dbs.device
    tt ← after_phase (codes "device-result")
    appl ←
        publish_versioned S (orch_result_application_publication_key event.event_id)
          (result_marker S J event) ((app_key S J event, application) ∷ []) dbs.appl
    tt ← after_phase (codes "application-result")
    returns (record dbs { device = device; appl = appl })

  -- The part for a result that gives the row the status `next`.
  unfoldable pub apply_result :
      EventEnvelope
      → J.Value
      → Bool
      → ConnectionApplyStatus
      → TextMap Text
      → Databases S
      → Outcome (Databases S)
  unfolding publish_result result_row clear_timeout_alarm
  apply_result event result success next application dbs = do
    error_code ← J.at result (codes "error_code") >>= J.get_text
    error_message ←
        (if status_eq next absent
          then returns []
          else J.at result (codes "error_message") >>= J.get_text)
    published ←
        publish_result event next (result_row success next error_code error_message application) dbs
    (if success
        then clear_timeout_alarm S J event clear_now published
          >>= (λ cleared. after_phase (codes "alarm-clear") >> returns cleared)
        else returns published)

  -- The part for a result that is not a timeout.
  unfoldable pub process_settled_result :
      EventEnvelope → J.Value → Bool → Databases S → Outcome (Databases S)
  unfolding has_hash clear_timeout_alarm get_hash decide apply_result
  process_settled_result event result success dbs =
      let application = get_hash S (app_key S J event) dbs.appl in
      if has_hash S (orch_result_application_publication_key event.event_id) dbs.appl
        && has_hash S (orch_result_device_publication_key event.event_id) dbs.device
      then (if success then clear_timeout_alarm S J event clear_now dbs else returns dbs)
      else if has_no_fields application
      then returns dbs
      else decide event success (J.value_text result (codes "command_id") []) application
        >>= λ decision. elim decision [
          | none ↦ returns dbs
          | some next ↦ apply_result event result success next application dbs
        ]

  unfoldable pub process_result : EventEnvelope → Databases S → Outcome (Databases S)
  unfolding result_command_id handle_timeout_result process_settled_result
  process_result event dbs = J.parse event.payload >>= λ result.
      (J.at result (codes "success") >>= J.get_bool) >>= λ success.
      (J.at result (codes "error_code") >>= J.get_text) >>= λ error_code.
      if not success && is_text error_code (Errors.to_string ErrorCode.apply_timeout)
      then result_command_id S J event result >>= (λ command_id.
        (J.at result (codes "error_message") >>= J.get_text) >>= (λ error_message.
          handle_timeout_result S J policy after_phase retry_now event_now alarm_now event
            command_id error_message dbs))
      else process_settled_result event result success dbs

  -- Every way through the handler that returns acknowledges the message.
  unfoldable pub process_result_one :
      List StreamMessage → List StreamMessage → Databases S → Outcome (Bool × Databases S)
  unfolding process_result
  process_result_one claimed fresh dbs = elim (next_message claimed fresh) [
    | none ↦ returns (false, dbs)
    | some message ↦ process_result message.event dbs >>= λ done.
        returns (true, acknowledge S device_results message.id done)
  ]

-- ===== src/Orchestrator/Timeouts.antt =====
-- handleTimeoutResult of cpp/src/orchestrator_service.cpp: an apply that timed out is tried again
-- later, for a bounded number of times.
pub mod Metadata
pub mod Bounds
pub mod Schedules
use mini_ocs_nos.Base.{
  ℕ, suc, ◌+◌, Bool, true, false, not, ◌&&◌, ◌||◌, Option, none, some, List, [], ◌∷◌, ◌++◌, ltb,
  ◌==◌, if◌then◌else◌,
}
use mini_ocs_nos.Base.Text.{Text, codes}
use mini_ocs_nos.Base.TextMap.{TextMap, find, insert_or_assign}
use mini_ocs_nos.Base.Decimal.{to_string, stoull}
use mini_ocs_nos.Base.Outcome.{Outcome, returns, throws, diverges, Exception, ◌>>=◌, ◌>>◌}
use mini_ocs_nos.DeviceTypes.{ConnectionCommand}
use mini_ocs_nos.Errors
use mini_ocs_nos.Errors.{ErrorCode}
use mini_ocs_nos.ConnectionStateMachine
use mini_ocs_nos.ConnectionStateMachine.{
  ConnectionApplyStatus, applying, removing, failed, retry_wait, status_eq, require_transition,
}
use mini_ocs_nos.Reconciler.{DeviceCommandBatch}
use mini_ocs_nos.RedisKeys.Tables.{
  connection_app_key, connection_device_key, device_apply_attempt_key,
}
use mini_ocs_nos.RedisKeys.Orch.{
  orch_timeout_application_publication_key, orch_timeout_device_publication_key,
  orch_retry_publication_key,
}
use mini_ocs_nos.RedisRepository.Events.{EventEnvelope}
use mini_ocs_nos.RedisRepository.Server.{Server}
use mini_ocs_nos.RedisRepository.Writes.{get_hash, has_no_fields}
use mini_ocs_nos.Json.{JsonLibrary}
use mini_ocs_nos.DeviceCommand.{encode_device_command, decode_device_command, operation_name}
use mini_ocs_nos.Orchestrator.{ApplyRetryPolicy, retry_at_ns}
use mini_ocs_nos.Orchestrator.Decode.{is_text, current_status, current_version}
use mini_ocs_nos.Orchestrator.Databases.{
  Databases, Hashes, keyed, device_retries, row, value_at, publish_versioned, publish_event,
}
use mini_ocs_nos.Orchestrator.Alarms.{publish_timeout_alarm}
use mini_ocs_nos.Orchestrator.Timeouts.Metadata.{
  is_for_command, completed_retries, retry_metadata, new_metadata, timeout_row,
}

module _ (S : Server) (J : JsonLibrary) where
  -- The loop over the commands: their rows with their ids, or none if one of them is not of the
  -- command.
  unfoldable pub timeout_rows :
      Text → Text → Text → TextMap Text → S.Db → List ConnectionCommand → Outcome (Option Hashes)
  unfolding is_for_command timeout_row get_hash
  timeout_rows device command_id error_message metadata appl [] = returns (some [])
  timeout_rows device command_id error_message metadata appl (command ∷ commands) =
      let rest = timeout_rows device command_id error_message metadata appl commands in
      let application = get_hash S (connection_app_key device command.id) appl in
      is_for_command application command.desired_version command_id >>= λ same.
      if not same
      then returns none
      else timeout_row command_id error_message metadata application >>= λ changed.
          rest >>= λ others. elim others [
            | none ↦ returns none
            | some rows ↦ returns (some ((command.id, changed) ∷ rows))
          ]

  -- The loop that raises the alarms; `now` is the time at which the alarm of an id is raised.
  unfoldable pub timeout_alarms :
      EventEnvelope
      → Text
      → Text
      → (Text → ℕ)
      → List ConnectionCommand
      → Databases S
      → Outcome (Databases S)
  unfolding publish_timeout_alarm
  timeout_alarms event command_id error_message now [] dbs = returns dbs
  timeout_alarms event command_id error_message now (command ∷ commands) dbs =
      publish_timeout_alarm S J
        (record event {
          resource_id = command.id;
          event_id = command_id ++ codes ":timeout-alarm:" ++ command.id;
        })
        error_message (now command.id) dbs
      >>= timeout_alarms event command_id error_message now commands

  unfoldable pub retry_payload : DeviceCommandBatch → Text → ℕ → ℕ → Outcome Text
  unfolding encode_device_command
  retry_payload batch failed_command_id retry_attempt not_before_ns = do
    encoded ← encode_device_command J batch
    value ← J.parse encoded
    J.dump (
        J.object (
          (codes "batch", value)
          ∷ (codes "failed_command_id", J.from_text failed_command_id)
          ∷ (codes "retry_attempt", J.from_uint64 retry_attempt)
          ∷ (codes "not_before_ns", J.from_uint64 not_before_ns)
          ∷ []))

  -- The type and the id of the resource of an event for a batch.
  abbrev pub batch_resource_type : DeviceCommandBatch → Text
  batch_resource_type batch = elim batch.commands [
    | command ∷ [] ↦ codes "connection"
    | _ ↦ codes "connection-batch"
  ]

  abbrev pub batch_resource_id : Text → DeviceCommandBatch → Text
  batch_resource_id request_id batch = elim batch.commands [
    | command ∷ [] ↦ command.id
    | _ ↦ request_id
  ]

  abbrev pub scheduled_event_id : Text → ℕ → Text
  scheduled_event_id command_id retry_attempt =
      command_id ++ codes ":retry:" ++ to_string retry_attempt

  abbrev pub scheduled_marker : EventEnvelope → Text → ℕ → TextMap Text
  scheduled_marker event command_id retry_attempt = row (
      (codes "command_id", command_id)
      ∷ (codes "retry_event_id", scheduled_event_id command_id retry_attempt)
      ∷ (codes "desired_version", to_string event.desired_version)
      ∷ [])

  abbrev pub scheduled_event :
      EventEnvelope → Text → ℕ → ℕ → DeviceCommandBatch → Text → EventEnvelope
  scheduled_event event command_id now retry_attempt batch payload = record {
    event_schema_version = 1;
    event_id = scheduled_event_id command_id retry_attempt;
    request_id = event.request_id;
    timestamp_ns = now;
    device = event.device;
    resource_type = batch_resource_type batch;
    resource_id = batch_resource_id event.request_id batch;
    operation = codes "RETRY";
    desired_version = event.desired_version;
    payload = payload;
  }

  unfoldable pub publish_retry :
      EventEnvelope
      → Text
      → ℕ
      → TextMap Text
      → DeviceCommandBatch
      → Databases S
      → Outcome (Databases S)
  unfolding retry_payload publish_event
  publish_retry event command_id now metadata batch dbs = do
    attempt_text ← value_at (codes "retry_attempt") metadata
    retry_attempt ← stoull attempt_text
    time_text ← value_at (codes "next_retry_at_ns") metadata
    not_before_ns ← stoull time_text
    payload ← retry_payload batch command_id retry_attempt not_before_ns
    d ←
        publish_event S (orch_retry_publication_key command_id)
          (scheduled_marker event command_id retry_attempt) device_retries
          (scheduled_event event command_id now retry_attempt batch payload) dbs.device
    returns (record dbs { device = d })

-- handleTimeoutResult; `after_phase` is the caller's function, `retry_now`, `alarm_now` and
-- `event_now` are the times at which the clock is read.
module _ (S : Server) (J : JsonLibrary) (policy : ApplyRetryPolicy)
    (after_phase : Text → Outcome (Unit {0})) (retry_now event_now : ℕ) (alarm_now : Text → ℕ) where
  -- The metadata that is recorded, or else new metadata.
  unfoldable pub timeout_metadata :
      EventEnvelope → Text → DeviceCommandBatch → Databases S → Outcome (Option (TextMap Text))
  unfolding get_hash new_metadata
  timeout_metadata event command_id batch dbs =
      let in_appl = get_hash S (orch_timeout_application_publication_key command_id) dbs.appl in
      let in_device = get_hash S (orch_timeout_device_publication_key command_id) dbs.device in
      if not (has_no_fields in_appl)
      then returns (some in_appl)
      else if not (has_no_fields in_device)
      then returns (some in_device)
      else elim batch.commands [
        | [] ↦ returns none
        | first ∷ commands ↦
            new_metadata policy command_id event.desired_version retry_now
              (get_hash S (connection_app_key event.device first.id) dbs.appl)
      ]

  -- The two tables, the device's first.
  unfoldable pub publish_timeout :
      EventEnvelope → Text → TextMap Text → Hashes → Databases S → Outcome (Databases S)
  unfolding publish_versioned
  publish_timeout event command_id metadata rows dbs = do
    device ←
        publish_versioned S (orch_timeout_device_publication_key command_id) metadata
          (keyed (connection_device_key event.device) rows) dbs.device
    tt ← after_phase (codes "timeout-device")
    appl ←
        publish_versioned S (orch_timeout_application_publication_key command_id) metadata
          (keyed (connection_app_key event.device) rows) dbs.appl
    tt ← after_phase (codes "timeout-application")
    returns (record dbs { device = device; appl = appl })

  unfoldable pub schedule_retry :
      EventEnvelope → Text → TextMap Text → DeviceCommandBatch → Databases S → Outcome (Databases S)
  unfolding publish_retry
  schedule_retry event command_id metadata batch dbs =
      value_at (codes "retry_scheduled") metadata >>= λ scheduled.
      if is_text scheduled (codes "true")
      then publish_retry S J event command_id event_now metadata batch dbs
        >>= (λ done. after_phase (codes "timeout-retry") >> returns done)
      else returns dbs

  -- The part for a batch that was decoded.
  unfoldable pub handle_timed_out_batch :
      EventEnvelope → Text → Text → DeviceCommandBatch → Databases S → Outcome (Databases S)
  unfolding timeout_metadata timeout_rows publish_timeout timeout_alarms schedule_retry
  handle_timed_out_batch event command_id error_message batch dbs =
      timeout_metadata event command_id batch dbs >>= λ found. elim found [
        | none ↦ returns dbs
        | some metadata ↦
            timeout_rows S J event.device command_id error_message metadata dbs.appl batch.commands
            >>= λ checked. elim checked [
              | none ↦ returns dbs
              | some rows ↦ do
                published ← publish_timeout event command_id metadata rows dbs
                raised ←
                    timeout_alarms S J event command_id error_message alarm_now batch.commands
                      published
                tt ← after_phase (codes "timeout-alarm")
                schedule_retry event command_id metadata batch raised
            ]
      ]

  -- A batch that cannot be decoded is left alone: the exception is caught.
  unfoldable pub handle_timeout_result :
      EventEnvelope → Text → Text → Databases S → Outcome (Databases S)
  unfolding get_hash decode_device_command handle_timed_out_batch
  handle_timeout_result event command_id error_message dbs =
      elim (find (codes "payload") (get_hash S (device_apply_attempt_key command_id) dbs.device)) [
        | none ↦ returns dbs
        | some payload ↦ elim (decode_device_command J payload) [
          | returns batch ↦ handle_timed_out_batch event command_id error_message batch dbs
          | throws x ↦ returns dbs
          | diverges ↦ diverges
        ]
      ]

-- ===== src/Orchestrator/Configs.antt =====
-- processConfigOne of cpp/src/orchestrator_service.cpp: a configuration event becomes a command
-- for the switch.
pub mod Repeats
use mini_ocs_nos.Base.{
  ℕ, ◌-◌, Bool, true, false, ◌&&◌, Option, none, some, List, [], ◌∷◌, ◌++◌, ltb, leb, ◌==◌,
  if◌then◌else◌,
}
use mini_ocs_nos.Base.Text.{Text, codes}
use mini_ocs_nos.Base.TextMap.{TextMap}
use mini_ocs_nos.Base.Decimal.{to_string}
use mini_ocs_nos.Base.Outcome.{Outcome, returns, ◌>>=◌, ◌>>◌}
use mini_ocs_nos.DeviceTypes.{ConnectionOperation, upsert, remove, ConnectionCommand}
use mini_ocs_nos.ConnectionStateMachine
use mini_ocs_nos.ConnectionStateMachine.{ConnectionApplyStatus}
use mini_ocs_nos.Reconciler.{DeviceCommandBatch}
use mini_ocs_nos.RedisKeys.Tables.{connection_app_key, connection_device_key}
use mini_ocs_nos.RedisKeys.Orch.{
  orch_config_batch_key, orch_application_publication_key, orch_device_state_publication_key,
  orch_device_command_publication_key,
}
use mini_ocs_nos.RedisRepository.Events.{EventEnvelope, StreamMessage}
use mini_ocs_nos.RedisRepository.Server.{Server}
use mini_ocs_nos.RedisRepository.Writes.{get_hash, has_no_fields}
use mini_ocs_nos.Json.{JsonLibrary}
use mini_ocs_nos.DeviceCommand.{encode_device_command, decode_device_command, operation_name}
use mini_ocs_nos.Orchestrator.{start_apply_transition}
use mini_ocs_nos.Orchestrator.Decode.{
  is_text, current_status, current_version, decode_config_batch_event, load_desired_snapshot,
}
use mini_ocs_nos.Orchestrator.Timeouts.{batch_resource_type, batch_resource_id}
use mini_ocs_nos.Orchestrator.Databases.{
  Databases, Hashes, keyed, config_events, device_commands, next_message, row, value_at,
  publish_versioned, publish_event, prepare_row, has_hash, acknowledge,
}

-- The operation of an event for a batch.
abbrev pub batch_operation : DeviceCommandBatch → Text
batch_operation batch = elim batch.commands [
  | command ∷ [] ↦ operation_name command.operation
  | _ ↦ codes "APPLY_BATCH"
]

-- The row of a command that is about to be applied.
unfoldable pub command_row :
    EventEnvelope → Text → ConnectionCommand → ConnectionApplyStatus → TextMap Text
command_row event command_id command status = row (
    (codes "device", event.device)
    ∷ (codes "id", command.id)
    ∷ (codes "input_port", to_string command.input_port)
    ∷ (codes "output_port", to_string command.output_port)
    ∷ (codes "desired_version", to_string command.desired_version)
    ∷ (codes "apply_status", ConnectionStateMachine.to_string status)
    ∷ (codes "operation", operation_name command.operation)
    ∷ (codes "request_id", event.request_id)
    ∷ (codes "event_id", event.event_id)
    ∷ (codes "command_id", command_id)
    ∷ (codes "retry_attempt", codes "0")
    ∷ (codes "next_retry_at_ns", [])
    ∷ (codes "failed_command_id", [])
    ∷ (codes "last_error_code", [])
    ∷ (codes "last_error_message", [])
    ∷ [])

abbrev pub config_command_id : EventEnvelope → Text
config_command_id event = event.event_id ++ codes ":command"

abbrev pub config_marker : EventEnvelope → TextMap Text
config_marker event = row (
    (codes "event_id", event.event_id)
    ∷ (codes "command_id", config_command_id event)
    ∷ (codes "desired_version", to_string event.desired_version)
    ∷ [])

abbrev is_removal : ConnectionOperation → Bool
is_removal remove = true
is_removal upsert = false

module _ (S : Server) (J : JsonLibrary) where
  -- The command to apply for a command of the event, whose row is `existing`: a single command
  -- that leaves out a version is replaced by the configuration of now.
  unfoldable pub gap_command :
      EventEnvelope → S.Db → ConnectionCommand → ℕ → Outcome ConnectionCommand
  unfolding load_desired_snapshot
  gap_command event config command previous_version =
      if is_text event.resource_type (codes "connection")
        && ltb 1 (command.desired_version - previous_version)
      then load_desired_snapshot S config event
      else returns command

  -- The loop over the commands of the event: none for a stale batch.
  unfoldable pub select_commands :
      EventEnvelope
      → S.Db
      → S.Db
      → List ConnectionCommand
      → Outcome (Option (List ConnectionCommand))
  unfolding get_hash current_version gap_command
  select_commands event config appl [] = returns (some [])
  select_commands event config appl (command ∷ commands) =
      let rest = select_commands event config appl commands in
      let existing = get_hash S (connection_app_key event.device command.id) appl in
      current_version existing >>= λ previous_version.
      if leb command.desired_version previous_version
      then returns none
      else if is_removal command.operation && has_no_fields existing
      then rest
      else gap_command event config command previous_version >>= λ selected. rest >>= λ others.
          elim others [ none ↦ returns none | some later ↦ returns (some (selected ∷ later)) ]

  -- The batch that is prepared for the event, or none if there is nothing to do.
  unfoldable pub prepare :
      EventEnvelope → Databases S → Outcome (Option (DeviceCommandBatch × Databases S))
  unfolding decode_config_batch_event select_commands encode_device_command prepare_row get_hash
      decode_device_command
  prepare event dbs = decode_config_batch_event J event >>= λ batch.
      select_commands event dbs.config dbs.appl batch.commands >>= λ selected. elim selected [
        | none ↦ returns none
        | some [] ↦ returns none
        | some (command ∷ commands) ↦ do
          payload ← encode_device_command J (record batch { commands = command ∷ commands })
          device ←
              prepare_row S (orch_config_batch_key event.event_id)
                (row (
                  (codes "event_id", event.event_id)
                  ∷ (codes "request_id", event.request_id)
                  ∷ (codes "device", event.device)
                  ∷ (codes "payload", payload)
                  ∷ []))
                dbs.device
          prepared ←
              value_at (codes "payload") (get_hash S (orch_config_batch_key event.event_id) device)
          decoded ← decode_device_command J prepared
          returns (some (decoded, record dbs { device = device }))
      ]

  -- A batch that was prepared before is taken up again.
  unfoldable pub prepared_batch :
      EventEnvelope → Databases S → Outcome (Option (DeviceCommandBatch × Databases S))
  unfolding get_hash prepare decode_device_command
  prepared_batch event dbs =
      let prepared = get_hash S (orch_config_batch_key event.event_id) dbs.device in
      if has_no_fields prepared
      then prepare event dbs
      else value_at (codes "payload") prepared >>= λ payload.
          decode_device_command J payload >>= λ batch. returns (some (batch, dbs))

  -- The loop that makes the rows, each with the id of its connection.
  unfoldable pub command_rows : EventEnvelope → S.Db → List ConnectionCommand → Outcome Hashes
  unfolding get_hash current_status start_apply_transition command_row
  command_rows event appl [] = returns []
  command_rows event appl (command ∷ commands) =
      let rest = command_rows event appl commands in
      current_status (get_hash S (connection_app_key event.device command.id) appl) >>= λ current.
      start_apply_transition current command.operation >>= λ status. rest >>= λ rows.
      returns ((command.id, command_row event (config_command_id event) command status) ∷ rows)

  unfoldable pub command_event : EventEnvelope → DeviceCommandBatch → ℕ → Text → EventEnvelope
  command_event event batch now payload = record {
    event_schema_version = 1;
    event_id = config_command_id event;
    request_id = event.request_id;
    timestamp_ns = now;
    device = event.device;
    resource_type = batch_resource_type S J batch;
    resource_id = batch_resource_id S J event.request_id batch;
    operation = batch_operation batch;
    desired_version = event.desired_version;
    payload = payload;
  }

-- processConfigOne; `after_phase` is the caller's function, `now` the time of the command event.
module _ (S : Server) (J : JsonLibrary) (after_phase : Text → Outcome (Unit {0})) (now : ℕ) where
  -- The three publications: the application rows, the device rows, and the command.
  unfoldable pub publish_batch :
      EventEnvelope → DeviceCommandBatch → Databases S → Outcome (Databases S)
  unfolding command_rows publish_versioned encode_device_command command_event publish_event
  publish_batch event batch dbs = do
    rows ← command_rows S J event dbs.appl batch.commands
    appl ←
        publish_versioned S (orch_application_publication_key event.event_id) (config_marker event)
          (keyed (connection_app_key event.device) rows) dbs.appl
    tt ← after_phase (codes "application")
    device ←
        publish_versioned S (orch_device_state_publication_key event.event_id) (config_marker event)
          (keyed (connection_device_key event.device) rows) dbs.device
    tt ← after_phase (codes "device-state")
    payload ← encode_device_command J batch
    commanded ←
        publish_event S (orch_device_command_publication_key event.event_id)
          (row (
            (codes "event_id", event.event_id)
            ∷ (codes "command_id", config_command_id event)
            ∷ []))
          device_commands (command_event S J event batch now payload) device
    tt ← after_phase (codes "command")
    returns (record dbs { appl = appl; device = commanded })

  unfoldable pub process_config : EventEnvelope → Databases S → Outcome (Databases S)
  unfolding has_hash prepared_batch publish_batch
  process_config event dbs =
      if has_hash S (orch_device_command_publication_key event.event_id) dbs.device
      then returns dbs
      else prepared_batch S J event dbs >>= λ found. elim found [
        | none ↦ returns dbs
        | some (batch, prepared) ↦
            after_phase (codes "prepared") >> publish_batch event batch prepared
      ]

  -- Every way through the handler that returns acknowledges the message.
  unfoldable pub process_config_one :
      List StreamMessage → List StreamMessage → Databases S → Outcome (Bool × Databases S)
  unfolding process_config
  process_config_one claimed fresh dbs = elim (next_message claimed fresh) [
    | none ↦ returns (false, dbs)
    | some message ↦ process_config message.event dbs >>= λ done.
        returns (true, acknowledge S config_events message.id done)
  ]

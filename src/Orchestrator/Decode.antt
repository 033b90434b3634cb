-- ===== src/Orchestrator/Decode.antt =====
-- cpp/src/orchestrator_service.cpp: what a configuration event asks for, and what a row of the
-- databases says of a connection.
pub mod WellFormed
use mini_ocs_nos.Base.{
  ℕ, Bool, not, ◌&&◌, ◌||◌, none, some, List, [], ◌∷◌, ite, ltb, ◌==◌, if◌then◌else◌,
}
use mini_ocs_nos.Base.Text.{Text, codes, text_discrete}
use mini_ocs_nos.Base.TextMap.{TextMap, find}
use mini_ocs_nos.Base.Decimal.{stoull}
use mini_ocs_nos.Base.Outcome.{Outcome, returns, throws, Exception, ◌>>=◌, ◌>>◌}
use mini_ocs_nos.DeviceTypes.{pos, upsert, remove, ConnectionCommand, ApplyOptions}
use mini_ocs_nos.ConnectionStateMachine.{
  ConnectionApplyStatus, absent, connection_apply_status_from_string,
}
use mini_ocs_nos.Reconciler.{DeviceCommandBatch}
use mini_ocs_nos.RedisKeys.Tables.{connection_config_key}
use mini_ocs_nos.RedisRepository.Events.{EventEnvelope}
use mini_ocs_nos.RedisRepository.Server.{Server}
use mini_ocs_nos.RedisRepository.Writes.{get_hash}
use mini_ocs_nos.Json.{JsonLibrary}
use mini_ocs_nos.DeviceCommand.{number_of, port_of, decode_device_command}

-- Equality of strings, as a test.
abbrev pub is_text : Text → Text → Bool
is_text s t = ite (text_discrete s t) Bool.true Bool.false

unfoldable pub current_status : TextMap Text → Outcome ConnectionApplyStatus
current_status application = elim (find (codes "apply_status") application) [
  | none ↦ returns absent
  | some status ↦ connection_apply_status_from_string status
]

unfoldable pub current_version : TextMap Text → Outcome ℕ
current_version application = elim (find (codes "desired_version") application) [
  | none ↦ returns 0
  | some version ↦ stoull version
]

abbrev removal_of : EventEnvelope → ConnectionCommand
removal_of event = record {
  operation = remove;
  id = event.resource_id;
  input_port = 0;
  output_port = 0;
  desired_version = event.desired_version;
}

-- The options that a batch has by default.
abbrev default_options : ApplyOptions
default_options = record { atomic = Bool.true; timeout = pos 1000; operation_id = [] }

-- The loop over the commands of a batch.
unfoldable pub has_version : ℕ → List ConnectionCommand → Bool
has_version version [] = Bool.true
has_version version (command ∷ commands) =
    command.desired_version == version && has_version version commands

module _ (J : JsonLibrary) where
  unfoldable pub decode_port : J.Value → Text → Outcome ℕ
  unfolding number_of port_of
  decode_port payload field = do
    value ← J.at payload field
    parsed ← number_of J value
    port_of parsed

  unfoldable pub decode_upsert : EventEnvelope → Outcome ConnectionCommand
  unfolding decode_port
  decode_upsert event = do
    payload ← J.parse event.payload
    input_port ← decode_port payload (codes "input_port")
    output_port ← decode_port payload (codes "output_port")
    returns (record {
      operation = upsert;
      id = event.resource_id;
      input_port = input_port;
      output_port = output_port;
      desired_version = event.desired_version;
    })

  unfoldable pub decode_config_event : EventEnvelope → Outcome ConnectionCommand
  unfolding decode_upsert
  decode_config_event event =
      if not (is_text event.resource_type (codes "connection"))
      then throws Exception.invalid_argument
      else if event.desired_version == 0
      then throws Exception.invalid_argument
      else if is_text event.operation (codes "REMOVE")
      then returns (removal_of event)
      else if not (is_text event.operation (codes "UPSERT"))
      then throws Exception.invalid_argument
      else decode_upsert event

  unfoldable pub decode_batch : EventEnvelope → Outcome DeviceCommandBatch
  unfolding decode_device_command has_version
  decode_batch event = decode_device_command J event.payload >>= λ batch.
      if has_version event.desired_version batch.commands
      then returns batch
      else throws Exception.invalid_argument

  unfoldable pub decode_config_batch_event : EventEnvelope → Outcome DeviceCommandBatch
  unfolding decode_config_event decode_batch
  decode_config_batch_event event =
      if is_text event.resource_type (codes "connection")
      then decode_config_event event
        >>= (λ command. returns (record { commands = command ∷ []; options = default_options }))
      else if not (is_text event.resource_type (codes "connection-batch"))
          || not (is_text event.operation (codes "APPLY_BATCH"))
      then throws Exception.invalid_argument
      else if event.desired_version == 0
      then throws Exception.invalid_argument
      else decode_batch event

unfoldable pub snapshot_port : TextMap Text → Text → Outcome ℕ
unfolding port_of
snapshot_port snapshot field = elim (find field snapshot) [
  | none ↦ throws Exception.invalid_argument
  | some value ↦ stoull value >>= port_of
]

-- The command that the recorded configuration asks for; there is one.
unfoldable pub snapshot_command : TextMap Text → EventEnvelope → Outcome ConnectionCommand
unfolding snapshot_port
snapshot_command snapshot event = elim (find (codes "desired_version") snapshot) [
  | none ↦ throws Exception.invalid_argument
  | some version ↦ do
    desired_version ← stoull version
    checked ←
        (if ltb desired_version event.desired_version
          then throws Exception.invalid_argument
          else returns desired_version)
    input_port ← snapshot_port snapshot (codes "input_port")
    output_port ← snapshot_port snapshot (codes "output_port")
    returns (record {
      operation = upsert;
      id = event.resource_id;
      input_port = input_port;
      output_port = output_port;
      desired_version = checked;
    })
]

-- The command of a snapshot as it was read.
unfoldable pub loaded_command : TextMap Text → EventEnvelope → Outcome ConnectionCommand
unfolding snapshot_command
loaded_command [] event =
    if is_text event.operation (codes "REMOVE")
    then returns (removal_of event)
    else throws Exception.runtime_error
loaded_command (row ∷ snapshot) event = snapshot_command (row ∷ snapshot) event

unfoldable pub load_desired_snapshot :
    (S : Server) → S.Db → EventEnvelope → Outcome ConnectionCommand
unfolding loaded_command get_hash
load_desired_snapshot S config_db event =
    loaded_command (get_hash S (connection_config_key event.device event.resource_id) config_db)
      event

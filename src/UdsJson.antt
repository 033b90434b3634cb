-- ===== src/UdsJson.antt =====
-- cpp/src/uds_json.cpp: the payloads of the frames between the synchronisation service and the
-- switch, over the JSON library. An ApplyRequest has the fields of a DeviceCommandBatch.
pub mod Names
pub mod Requests
pub mod RoundTrip
mod Examples
use mini_ocs_nos.Base.{ℕ, ◌%◌, ◌^◌, Bool, true, false, List, [], ◌∷◌, ite, if◌then◌else◌}
use mini_ocs_nos.Base.Text.{Text, codes, text_discrete}
use mini_ocs_nos.Base.Outcome.{Outcome, returns, ◌>>=◌}
use mini_ocs_nos.Errors
use mini_ocs_nos.Errors.{Error, error_code_from_string}
use mini_ocs_nos.DeviceTypes.{
  ConnectionCommand, AppliedConnection, ApplyOptions, ApplyResult, DeviceInfo, PortState,
  PortDirection, ResetMode, soft, hard, ResetResult, FaultSpec, FaultResult,
}
use mini_ocs_nos.Reconciler.{DeviceCommandBatch}
use mini_ocs_nos.Json.{JsonLibrary}
use mini_ocs_nos.DeviceCommand.{batch_value}
use mini_ocs_nos.UdsJson.Names.{
  direction_name, parse_direction, parse_uds_operation, port_status_name, parse_port_status,
  fault_name, parse_fault,
}

module _ (J : JsonLibrary) where
  abbrev pub text_at : J.Value → Text → Outcome Text
  text_at value name = J.at value name >>= J.get_text

  abbrev pub number_at : J.Value → Text → Outcome ℕ
  number_at value name = J.at value name >>= J.get_uint64

  -- get<PortId>, a conversion to 16 bits.
  abbrev pub port_at_field : J.Value → Text → Outcome ℕ
  port_at_field value name = number_at value name >>= λ n. returns (n % 2 ^ 16)

  unfoldable pub error_json : Error → J.Value
  error_json error = J.object (
      (codes "code", J.from_text (Errors.to_string error.code))
      ∷ (codes "message", J.from_text error.message)
      ∷ [])

  unfoldable pub parse_error : J.Value → Outcome Error
  parse_error value = do
    code ← J.value_text value (codes "code") (codes "OCS_INTERNAL_ERROR")
    message ← J.value_text value (codes "message") []
    returns (record { code = error_code_from_string code; message = message })

  unfoldable pub connection_json : AppliedConnection → J.Value
  connection_json connection = J.object (
      (codes "id", J.from_text connection.id)
      ∷ (codes "input_port", J.from_uint64 connection.input_port)
      ∷ (codes "output_port", J.from_uint64 connection.output_port)
      ∷ (codes "applied_version", J.from_uint64 connection.applied_version)
      ∷ [])

  unfoldable pub connections_json : List AppliedConnection → List J.Value
  unfolding connection_json
  connections_json [] = []
  connections_json (connection ∷ connections) =
      connection_json connection ∷ connections_json connections

  unfoldable pub parse_connection : J.Value → Outcome AppliedConnection
  parse_connection value = do
    id ← text_at value (codes "id")
    input_port ← port_at_field value (codes "input_port")
    output_port ← port_at_field value (codes "output_port")
    applied_version ← number_at value (codes "applied_version")
    returns (record {
      id = id;
      input_port = input_port;
      output_port = output_port;
      applied_version = applied_version;
    })

  unfoldable pub parse_connections : List J.Value → Outcome (List AppliedConnection)
  unfolding parse_connection
  parse_connections [] = returns []
  parse_connections (value ∷ values) =
      let rest = parse_connections values in
      parse_connection value >>= λ connection.
      rest >>= λ connections. returns (connection ∷ connections)

  unfoldable pub encode_error : Error → Outcome Text
  unfolding error_json
  encode_error error = J.dump (error_json error)

  unfoldable pub decode_error : Text → Outcome Error
  unfolding parse_error
  decode_error payload = J.parse payload >>= parse_error

  unfoldable pub encode_device_info : DeviceInfo → Outcome Text
  encode_device_info info = J.dump (
      J.object (
        (codes "name", J.from_text info.name)
        ∷ (codes "input_port_count", J.from_uint64 info.input_port_count)
        ∷ (codes "output_port_count", J.from_uint64 info.output_port_count)
        ∷ (codes "model", J.from_text info.model)
        ∷ (codes "serial_number", J.from_text info.serial_number)
        ∷ (codes "firmware_version", J.from_text info.firmware_version)
        ∷ (codes "generation", J.from_uint64 info.generation)
        ∷ []))

  unfoldable pub decode_device_info : Text → Outcome DeviceInfo
  decode_device_info payload = do
    value ← J.parse payload
    name ← text_at value (codes "name")
    input_port_count ← port_at_field value (codes "input_port_count")
    output_port_count ← port_at_field value (codes "output_port_count")
    model ← text_at value (codes "model")
    serial_number ← text_at value (codes "serial_number")
    firmware_version ← text_at value (codes "firmware_version")
    generation ← number_at value (codes "generation")
    returns (record {
      name = name;
      input_port_count = input_port_count;
      output_port_count = output_port_count;
      model = model;
      serial_number = serial_number;
      firmware_version = firmware_version;
      generation = generation;
    })

  -- The same text as that of a batch of commands.
  unfoldable pub encode_apply_request : List ConnectionCommand → ApplyOptions → Outcome Text
  encode_apply_request commands options =
      J.dump (batch_value J (record { commands = commands; options = options }))

  unfoldable pub decode_request_command : J.Value → Outcome ConnectionCommand
  unfolding parse_uds_operation
  decode_request_command command = do
    operation ← text_at command (codes "operation")
    id ← text_at command (codes "id")
    input_port ← port_at_field command (codes "input_port")
    output_port ← port_at_field command (codes "output_port")
    desired_version ← number_at command (codes "desired_version")
    returns (record {
      operation = parse_uds_operation operation;
      id = id;
      input_port = input_port;
      output_port = output_port;
      desired_version = desired_version;
    })

  unfoldable pub decode_request_commands : List J.Value → Outcome (List ConnectionCommand)
  unfolding decode_request_command
  decode_request_commands [] = returns []
  decode_request_commands (value ∷ values) =
      let rest = decode_request_commands values in
      decode_request_command value >>= λ command. rest >>= λ commands. returns (command ∷ commands)

  unfoldable pub decode_apply_request : Text → Outcome DeviceCommandBatch
  unfolding decode_request_commands
  decode_apply_request payload = do
    value ← J.parse payload
    atomic ← J.at value (codes "atomic") >>= J.get_bool
    timeout ← J.at value (codes "timeout_ms") >>= J.get_int64
    operation_id ← J.value_text value (codes "operation_id") []
    list ← J.at value (codes "commands")
    commands ← decode_request_commands (J.elements list)
    returns (record {
      commands = commands;
      options = record { atomic = atomic; timeout = timeout; operation_id = operation_id };
    })

  unfoldable pub encode_apply_result : ApplyResult → Outcome Text
  unfolding error_json connections_json
  encode_apply_result result = J.dump (
      J.object (
        (codes "error", error_json result.error)
        ∷ (codes "connections", J.array (connections_json result.connections))
        ∷ []))

  unfoldable pub decode_apply_result : Text → Outcome ApplyResult
  unfolding parse_error parse_connections
  decode_apply_result payload = do
    value ← J.parse payload
    error ← J.at value (codes "error") >>= parse_error
    list ← J.at value (codes "connections")
    connections ← parse_connections (J.elements list)
    returns (record { error = error; connections = connections })

  unfoldable pub encode_connections : List AppliedConnection → Outcome Text
  unfolding connections_json
  encode_connections connections = J.dump (J.array (connections_json connections))

  unfoldable pub decode_connections : Text → Outcome (List AppliedConnection)
  unfolding parse_connections
  decode_connections payload = J.parse payload >>= λ value. parse_connections (J.elements value)

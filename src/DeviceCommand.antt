-- ===== src/DeviceCommand.antt =====
-- cpp/src/device_command.cpp: batches of commands as JSON texts. DeviceCommandBatch itself is in
-- Reconciler.
pub mod Ports
pub mod RoundTrip
mod Examples
use mini_ocs_nos.Base.{ℕ, zero, suc, Bool, ◌||◌, List, [], ◌∷◌, ite, ltb, ◌==◌, if◌then◌else◌}
use mini_ocs_nos.Base.Text.{Text, codes, text_discrete}
use mini_ocs_nos.Base.Outcome.{Outcome, returns, throws, Exception, ◌>>=◌}
use mini_ocs_nos.DeviceTypes.{
  ℤ, pos, negsuc, ConnectionOperation, upsert, remove, ConnectionCommand, ApplyOptions,
}
use mini_ocs_nos.Reconciler.{DeviceCommandBatch}
use mini_ocs_nos.Json.{JsonLibrary}

unfoldable pub operation_name : ConnectionOperation → Text
operation_name remove = codes "REMOVE"
operation_name upsert = codes "UPSERT"

unfoldable pub parse_operation : Text → Outcome ConnectionOperation
parse_operation operation = ite (text_discrete operation (codes "UPSERT")) (returns upsert) (
    ite (text_discrete operation (codes "REMOVE")) (returns remove)
      (throws Exception.invalid_argument))

-- A signed value that is not positive is refused.
unfoldable pub unsigned_of : ℤ → Outcome ℕ
unsigned_of (pos zero) = throws Exception.invalid_argument
unsigned_of (pos (suc n)) = returns (suc n)
unsigned_of (negsuc n) = throws Exception.invalid_argument

-- A PortId has 16 bits.
unfoldable pub port_of : ℕ → Outcome ℕ
port_of parsed =
    if parsed == 0 || ltb 65535 parsed then throws Exception.invalid_argument else returns parsed

module _ (J : JsonLibrary) where
  -- The value as a uint64_t.
  unfoldable pub number_of : J.Value → Outcome ℕ
  unfolding unsigned_of
  number_of value =
      if J.is_number_unsigned value
      then J.get_uint64 value
      else if J.is_number_integer value
      then J.get_int64 value >>= unsigned_of
      else throws Exception.invalid_argument

  unfoldable pub parse_port : J.Value → Text → Outcome ℕ
  unfolding number_of port_of
  parse_port command field = do value ← J.at command field; parsed ← number_of value; port_of parsed

  abbrev pub command_value : ConnectionCommand → J.Value
  command_value command = J.object (
      (codes "operation", J.from_text (operation_name command.operation))
      ∷ (codes "id", J.from_text command.id)
      ∷ (codes "input_port", J.from_uint64 command.input_port)
      ∷ (codes "output_port", J.from_uint64 command.output_port)
      ∷ (codes "desired_version", J.from_uint64 command.desired_version)
      ∷ [])

  abbrev pub command_values : List ConnectionCommand → List J.Value
  command_values [] = []
  command_values (command ∷ commands) = command_value command ∷ command_values commands

  abbrev pub batch_value : DeviceCommandBatch → J.Value
  batch_value batch = J.object (
      (codes "commands", J.array (command_values batch.commands))
      ∷ (codes "atomic", J.from_bool batch.options.atomic)
      ∷ (codes "timeout_ms", J.from_int64 batch.options.timeout)
      ∷ (codes "operation_id", J.from_text batch.options.operation_id)
      ∷ [])

  unfoldable pub encode_device_command : DeviceCommandBatch → Outcome Text
  encode_device_command batch = J.dump (batch_value batch)

  -- The ports of a removal stay 0.
  unfoldable pub parse_ports : ConnectionOperation → J.Value → Outcome (ℕ × ℕ)
  unfolding parse_port
  parse_ports remove command = returns (0, 0)
  parse_ports upsert command = do
    input_port ← parse_port command (codes "input_port")
    output_port ← parse_port command (codes "output_port")
    returns (input_port, output_port)

  unfoldable pub decode_command : J.Value → Outcome ConnectionCommand
  unfolding parse_operation parse_ports
  decode_command command = do
    name ← J.at command (codes "operation") >>= J.get_text
    operation ← parse_operation name
    id ← J.at command (codes "id") >>= J.get_text
    desired_version ← J.at command (codes "desired_version") >>= J.get_uint64
    ports ← parse_ports operation command
    returns (record {
      operation = operation;
      id = id;
      input_port = ports.0;
      output_port = ports.1;
      desired_version = desired_version;
    })

  unfoldable pub decode_commands : List J.Value → Outcome (List ConnectionCommand)
  unfolding decode_command
  decode_commands [] = returns []
  decode_commands (value ∷ values) =
      let rest = decode_commands values in
      decode_command value >>= λ command. rest >>= λ commands. returns (command ∷ commands)

  -- The time limit must be positive.
  abbrev pub is_positive : ℤ → Bool
  is_positive (pos zero) = Bool.false
  is_positive (pos (suc n)) = Bool.true
  is_positive (negsuc n) = Bool.false

  unfoldable pub decoded_batch : ApplyOptions → List ConnectionCommand → Outcome DeviceCommandBatch
  decoded_batch options [] = throws Exception.invalid_argument
  decoded_batch options (command ∷ commands) =
      returns (record { commands = command ∷ commands; options = options })

  -- The check of the time limit and the loop over the commands.
  unfoldable pub commands_of : ℤ → J.Value → Outcome (List ConnectionCommand)
  unfolding decode_commands
  commands_of timeout value =
      if is_positive timeout
      then J.at value (codes "commands") >>= (λ list. decode_commands (J.elements list))
      else throws Exception.invalid_argument

  unfoldable pub decode_device_command : Text → Outcome DeviceCommandBatch
  unfolding commands_of decoded_batch
  decode_device_command payload = do
    value ← J.parse payload
    atomic ← J.at value (codes "atomic") >>= J.get_bool
    timeout ← J.at value (codes "timeout_ms") >>= J.get_int64
    operation_id ← J.value_text value (codes "operation_id") []
    commands ← commands_of timeout value
    decoded_batch (record { atomic = atomic; timeout = timeout; operation_id = operation_id })
        commands

-- ===== src/DeviceCommand/Ports.antt =====
-- The commands that decodeDeviceCommand of cpp/src/device_command.cpp returns.
use mini_ocs_nos.Base.{ℕ, ◌≤◌, ◌≡◌, List, [], ◌∷◌, arith, All, ◌≢◌}
use mini_ocs_nos.Base.Text.{Text, codes}
use mini_ocs_nos.Base.Outcome.{
  returns, ◌>>=◌, >>=-returns, Ensures, Ensures-bind, Ensures-value, Ensures-throws, Ensures-if,
}
use mini_ocs_nos.DeviceTypes.{
  ℤ, ConnectionOperation, upsert, remove, ConnectionCommand, ApplyOptions,
}
use mini_ocs_nos.Reconciler.{DeviceCommandBatch}
use mini_ocs_nos.Json.{JsonLibrary}
use mini_ocs_nos.DeviceCommand.{
  parse_operation, port_of, number_of, parse_port, parse_ports, decode_command, decode_commands,
  is_positive, commands_of, decoded_batch, decode_device_command,
}

-- A port is from 1 to 65535.
abbrev pub IsPort : ℕ → Type 0
IsPort n = (1 ≤ n) × (n ≤ 65535)

-- The ports of a command on the wire: real ports for an UPSERT, and 0 for a REMOVE.
abbrev pub HasPorts : ConnectionCommand → Type 0
HasPorts command = elim command.operation [
  | upsert ↦ IsPort command.input_port × IsPort command.output_port
  | remove ↦ (command.input_port ≡ 0) × (command.output_port ≡ 0)
]

pub port_of-IsPort : (n p : ℕ) → port_of n ≡ returns p → IsPort p
unfolding port_of
port_of-IsPort n p h = ground arith

module _ (J : JsonLibrary) where
  parse_port-IsPort :
      (v : J.Value) (name : Text) (p : ℕ) → parse_port J v name ≡ returns p → IsPort p
  unfolding parse_port
  parse_port-IsPort v name p h =
      let (value, e, k) = >>=-returns (J.at v name) _ h in
      let (parsed, e', k') = >>=-returns (number_of J value) port_of k in port_of-IsPort parsed p k'

  parse_ports-HasPorts :
      (operation : ConnectionOperation) (v : J.Value) (id : Text) (version : ℕ) (ports : ℕ × ℕ)
      → parse_ports J operation v ≡ returns ports
      → HasPorts (record {
        operation = operation;
        id = id;
        input_port = ports.0;
        output_port = ports.1;
        desired_version = version;
      })
  unfolding parse_ports
  parse_ports-HasPorts remove v id version ports h = ground arith
  parse_ports-HasPorts upsert v id version ports h =
      let (i, e, k) = >>=-returns (parse_port J v (codes "input_port")) _ h in
      let (o, e', k') = >>=-returns (parse_port J v (codes "output_port")) _ k in
      let p = parse_port-IsPort v (codes "input_port") i e in
      let q = parse_port-IsPort v (codes "output_port") o e' in ground arith

  decode_command-HasPorts : (v : J.Value) → Ensures HasPorts (decode_command J v)
  unfolding decode_command
  decode_command-HasPorts v = Ensures-bind (J.at v (codes "operation") >>= J.get_text) λ name e1.
      Ensures-bind (parse_operation name) λ operation e2.
        Ensures-bind (J.at v (codes "id") >>= J.get_text) λ id e3.
          Ensures-bind (J.at v (codes "desired_version") >>= J.get_uint64) λ version e4.
            Ensures-bind (parse_ports J operation v)
              λ ports e5. Ensures-value (parse_ports-HasPorts operation v id version ports e5)

  decode_commands-HasPorts : (vs : List J.Value) → Ensures (All HasPorts) (decode_commands J vs)
  unfolding decode_commands
  decode_commands-HasPorts [] = Ensures-value tt
  decode_commands-HasPorts (v ∷ vs) = Ensures-bind (decode_command J v) λ c e.
      Ensures-bind (decode_commands J vs) λ rest e'.
        Ensures-value
          ((decode_command-HasPorts v).holds c e, (decode_commands-HasPorts vs).holds rest e')

  commands_of-HasPorts :
      (timeout : ℤ) (v : J.Value) → Ensures (All HasPorts) (commands_of J timeout v)
  unfolding commands_of
  commands_of-HasPorts timeout v =
      Ensures-if (is_positive J timeout)
        (λ e.
          Ensures-bind (J.at v (codes "commands"))
            λ list e'. decode_commands-HasPorts (J.elements list))
        (λ e. Ensures-throws)

  abbrev pub IsWellFormed : DeviceCommandBatch → Type 0
  IsWellFormed batch = All HasPorts batch.commands × (batch.commands ≢ [])

  decoded_batch-IsWellFormed :
      (options : ApplyOptions) (cs : List ConnectionCommand)
      → All HasPorts cs
      → Ensures IsWellFormed (decoded_batch J options cs)
  unfolding decoded_batch
  decoded_batch-IsWellFormed options [] p = Ensures-throws
  decoded_batch-IsWellFormed options (c ∷ cs) p = Ensures-value (p, λ e. cc)

  pub decode_device_command-IsWellFormed :
      (payload : Text) → Ensures IsWellFormed (decode_device_command J payload)
  unfolding decode_device_command
  decode_device_command-IsWellFormed payload = Ensures-bind (J.parse payload) λ value e1.
      Ensures-bind (J.at value (codes "atomic") >>= J.get_bool) λ atomic e2.
        Ensures-bind (J.at value (codes "timeout_ms") >>= J.get_int64) λ timeout e3.
          Ensures-bind (J.value_text value (codes "operation_id") []) λ id e4.
            Ensures-bind (commands_of J timeout value) λ commands e5.
              decoded_batch-IsWellFormed
                (record { atomic = atomic; timeout = timeout; operation_id = id }) commands
                ((commands_of-HasPorts timeout value).holds commands e5)

-- ===== src/DeviceCommand/RoundTrip.antt =====
-- decodeDeviceCommand of cpp/src/device_command.cpp reads back what encodeDeviceCommand writes.
use mini_ocs_nos.Base.{ℕ, ◌≡◌, refl, true, some, List, [], ◌∷◌, arith, All}
use mini_ocs_nos.Base.Text.{Text, codes, text_discrete}
use mini_ocs_nos.Base.TextMap.{find}
use mini_ocs_nos.Base.Outcome.{returns, ◌>>=◌}
use mini_ocs_nos.DeviceTypes.{ConnectionOperation, upsert, remove, ConnectionCommand}
use mini_ocs_nos.Reconciler.{DeviceCommandBatch}
use mini_ocs_nos.DeviceCommand.Ports.{IsPort, HasPorts}
use mini_ocs_nos.Json.{JsonLibrary, IsDocumented}
use mini_ocs_nos.DeviceCommand.{
  operation_name, parse_operation, port_of, number_of, parse_port, command_value, command_values,
  batch_value, encode_device_command, parse_ports, decode_command, decode_commands, is_positive,
  commands_of, decoded_batch, decode_device_command,
}

parse_operation-operation_name :
    (operation : ConnectionOperation)
    → parse_operation (operation_name operation) ≡ returns operation
unfolding parse_operation operation_name codes text_discrete
parse_operation-operation_name upsert = refl
parse_operation-operation_name remove = refl

port_of_id : (n : ℕ) → IsPort n → port_of n ≡ returns n
unfolding port_of
port_of_id n h = ground arith

module _ (J : JsonLibrary) (D : IsDocumented J) where
  parse_port-object :
      (fields : List (Text × J.Value)) (name : Text) (n : ℕ)
      → find name fields ≡ some (J.from_uint64 n)
      → IsPort n
      → parse_port J (J.object fields) name ≡ returns n
  unfolding parse_port number_of
  parse_port-object fields name n h p =
      rw
        (
          D.at-object fields name (J.from_uint64 n) h,
          D.is_number_unsigned-from_uint64 n,
          D.get_uint64-from_uint64 n,
        )
        (port_of_id n p)

  parse_ports-object :
      (fields : List (Text × J.Value)) (c : ConnectionCommand)
      → find (codes "input_port") fields ≡ some (J.from_uint64 c.input_port)
      → find (codes "output_port") fields ≡ some (J.from_uint64 c.output_port)
      → HasPorts c
      → parse_ports J c.operation (J.object fields) ≡ returns (c.input_port, c.output_port)
  unfolding parse_ports
  parse_ports-object fields c i o p = ground (
    arith,
    parse_port-object fields (codes "input_port") c.input_port i,
    parse_port-object fields (codes "output_port") c.output_port o,
  )

  text_at :
      (fields : List (Text × J.Value)) (name text : Text)
      → find name fields ≡ some (J.from_text text)
      → (J.at (J.object fields) name >>= J.get_text) ≡ returns text
  text_at fields name text h =
      rw (D.at-object fields name (J.from_text text) h, D.get_text-from_text text) refl

  number_at :
      (fields : List (Text × J.Value)) (name : Text) (n : ℕ)
      → find name fields ≡ some (J.from_uint64 n)
      → (J.at (J.object fields) name >>= J.get_uint64) ≡ returns n
  number_at fields name n h =
      rw (D.at-object fields name (J.from_uint64 n) h, D.get_uint64-from_uint64 n) refl

  decode_command_value :
      (c : ConnectionCommand) → HasPorts c → decode_command J (command_value J c) ≡ returns c
  unfolding decode_command find text_discrete codes
  decode_command_value c p =
      rw
        (
          text_at _ (codes "operation") (operation_name c.operation) refl,
          parse_operation-operation_name c.operation,
          text_at _ (codes "id") c.id refl,
          number_at _ (codes "desired_version") c.desired_version refl,
          parse_ports-object _ c refl refl p,
        )
        refl

  decode_commands-command_values :
      (cs : List ConnectionCommand)
      → All HasPorts cs
      → decode_commands J (command_values J cs) ≡ returns cs
  unfolding decode_commands
  decode_commands-command_values [] p = refl
  decode_commands-command_values (c ∷ cs) p =
      rw (decode_command_value c p.0, decode_commands-command_values cs p.1) refl

  -- A batch that is not empty, whose time limit is positive and whose commands have the ports of
  -- the wire, is decoded from the text that it is encoded as.
  pub decode-encode_device_command :
      (batch : DeviceCommandBatch) (c : ConnectionCommand) (cs : List ConnectionCommand)
      (payload : Text)
      → batch.commands ≡ c ∷ cs
      → All HasPorts batch.commands
      → is_positive J batch.options.timeout ≡ true
      → encode_device_command J batch ≡ returns payload
      → decode_device_command J payload ≡ returns batch
  unfolding decode_device_command encode_device_command find text_discrete codes decoded_batch
      commands_of
  decode-encode_device_command batch c cs payload some_command p t e =
      rw
        (
          D.parse-dump (batch_value J batch) payload e,
          D.at-object _ (codes "atomic") (J.from_bool batch.options.atomic) refl,
          D.get_bool-from_bool batch.options.atomic,
          D.at-object _ (codes "timeout_ms") (J.from_int64 batch.options.timeout) refl,
          D.get_int64-from_int64 batch.options.timeout,
          D.value_text-object _ (codes "operation_id") [] batch.options.operation_id refl,
          t,
          D.at-object _ (codes "commands") (J.array (command_values J batch.commands)) refl,
          D.elements-array (command_values J batch.commands),
          decode_commands-command_values batch.commands p,
        )
        (ground arith)

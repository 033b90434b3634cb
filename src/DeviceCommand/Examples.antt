-- ===== src/DeviceCommand/Examples.antt =====
-- Instances for cpp/src/device_command.cpp, on the JSON library of Json.Postfix.
use mini_ocs_nos.Base.{◌≡◌, refl, true, [], ◌∷◌, arith}
use mini_ocs_nos.Base.Text.{Text}
use mini_ocs_nos.Base.Outcome.{Outcome, returns}
use mini_ocs_nos.DeviceTypes.{pos, upsert, remove}
use mini_ocs_nos.Reconciler.{DeviceCommandBatch}
use mini_ocs_nos.Json.Postfix.{postfix, postfix-IsDocumented}
use mini_ocs_nos.DeviceCommand.{encode_device_command, decode_device_command}
use mini_ocs_nos.DeviceCommand.RoundTrip.{decode-encode_device_command}

abbrev batch : DeviceCommandBatch
batch = record {
  commands =
      record {
        operation = upsert;
        id = 97 ∷ [];
        input_port = 1;
        output_port = 65535;
        desired_version = 4;
      }
      ∷ record {
        operation = remove;
        id = 98 ∷ [];
        input_port = 0;
        output_port = 0;
        desired_version = 4;
      }
      ∷ [];
  options = record { atomic = true; timeout = pos 1000; operation_id = 99 ∷ [] };
}

abbrev payload_of : Outcome Text → Text
payload_of (returns text) = text
payload_of _ = []

decode-encode_device_command_example :
    decode_device_command postfix (payload_of (encode_device_command postfix batch)) ≡ returns batch
unfolding encode_device_command postfix
decode-encode_device_command_example =
    decode-encode_device_command postfix postfix-IsDocumented batch _ _ _ refl
      (((omega arith, omega arith), (omega arith, omega arith)), ((refl, refl), tt)) refl refl

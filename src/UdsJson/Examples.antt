-- ===== src/UdsJson/Examples.antt =====
-- Instances for cpp/src/uds_json.cpp, on the JSON library of Json.Postfix.
use mini_ocs_nos.Base.{◌≡◌, refl, [], ◌∷◌, arith}
use mini_ocs_nos.Base.Text.{Text}
use mini_ocs_nos.Base.Outcome.{Outcome, returns}
use mini_ocs_nos.Errors.{success}
use mini_ocs_nos.DeviceTypes.{ApplyResult}
use mini_ocs_nos.Json.Postfix.{postfix, postfix-IsDocumented}
use mini_ocs_nos.UdsJson.{encode_apply_result, decode_apply_result}
use mini_ocs_nos.UdsJson.RoundTrip.{decode-encode_apply_result}

abbrev result : ApplyResult
result = record {
  error = success;
  connections = record { id = 97 ∷ []; input_port = 1; output_port = 2; applied_version = 7 } ∷ [];
}

abbrev text_of : Outcome Text → Text
text_of (returns text) = text
text_of _ = []

decode-encode_apply_result_example :
    decode_apply_result postfix (text_of (encode_apply_result postfix result)) ≡ returns result
unfolding encode_apply_result postfix
decode-encode_apply_result_example =
    decode-encode_apply_result postfix postfix-IsDocumented result _
      ((omega arith, omega arith), tt) refl

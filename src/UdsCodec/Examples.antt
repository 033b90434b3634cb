-- ===== src/UdsCodec/Examples.antt =====
-- Instances for the frames of cpp/src/uds_codec.cpp.
use mini_ocs_nos.Base.{◌+◌, ◌^◌, ◌≡◌, some, [], ◌∷◌, arith, length}
use mini_ocs_nos.Errors.{success}
use mini_ocs_nos.UdsCodec.{Frame, encode, decode}
use mini_ocs_nos.UdsCodec.RoundTrip.{decode-encode}

abbrev sample : Frame
sample = record {
  version = 1;
  message_type = 5;
  flags = 3;
  request_id = 2 ^ 40 + 9;
  device_generation = 258;
  payload = 104 ∷ 105 ∷ [];
}

decode-encode_example :
    ((encode sample).error ≡ success)
    × (length (encode sample).bytes ≡ 32 + length sample.payload)
    × (decode (encode sample).bytes ≡ some (record { error = success; frame = some sample }))
decode-encode_example = decode-encode sample (omega arith)

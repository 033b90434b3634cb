-- ===== src/UdsCodec.antt =====
-- cpp/include/ocs/uds_protocol.hpp and cpp/src/uds_codec.cpp: the frames of the device socket.
-- A std::byte and a char of a payload are numbers below 256.
pub mod BigEndian
pub mod RoundTrip
mod Examples
use mathlib.Core.Option
use mini_ocs_nos.Base.{
  ℕ, zero, suc, ◌+◌, ◌-◌, ◌*◌, ◌/◌, ◌%◌, ◌^◌, ◌≡◌, refl, Bool, true, false, not, ◌&&◌, ◌||◌, Option,
  none, some, List, [], ◌∷◌, ◌++◌, leb, ltb, ◌==◌, if◌then◌else◌, length,
}
use mini_ocs_nos.Base.Text.{Text, codes}
use mini_ocs_nos.Errors.{ErrorCode, Error, success}

abbrev pub magic_number : ℕ
magic_number = 0x4F435331

abbrev pub protocol_version : ℕ
protocol_version = 1

abbrev pub header_size : ℕ
header_size = 32

abbrev pub max_payload_size : ℕ
max_payload_size = 1024 * 1024

-- The first and last enumerator of MessageType, an enum over uint16_t.
abbrev pub hello : ℕ
hello = 1

abbrev pub error_reply : ℕ
error_reply = 16

-- message_type is the value of the enum's underlying type.
pub record Frame : Type 0 where
  pub version : ℕ
  pub message_type : ℕ
  pub flags : ℕ
  pub request_id : ℕ
  pub device_generation : ℕ
  pub payload : List ℕ

pub record EncodeResult : Type 0 where
  pub error : Error
  pub bytes : List ℕ

pub record DecodeResult : Type 0 where
  pub error : Error
  pub frame : Option Frame

-- The loop of appendBigEndian, with `offset` bytes left.
unfoldable pub append_big_endian : ℕ → List ℕ → ℕ → List ℕ
append_big_endian zero output value = output
append_big_endian (suc offset) output value =
    append_big_endian offset (output ++ (value / 2 ^ (offset * 8) % 256) ∷ []) value

-- The loop of readBigEndian, with `left` bytes to read, for an Integer of the modulus; the input
-- is what `offset` has not passed, and `none` is a read past its end. The shifted value has no
-- low bits, so the `|` adds.
unfoldable pub read_big_endian : ℕ → ℕ → ℕ → List ℕ → Option (ℕ × List ℕ)
read_big_endian zero modulus value input = some (value, input)
read_big_endian (suc left) modulus value [] = none
read_big_endian (suc left) modulus value (byte ∷ input) =
    read_big_endian left modulus ((value * 256 + byte) % modulus) input

abbrev pub protocol_error : ErrorCode → Text → Error
protocol_error code message = record { code = code; message = message }

abbrev pub is_known_message_type : ℕ → Bool
is_known_message_type value = leb hello value && leb value error_reply

-- The bytes of an accepted frame.
unfoldable pub frame_bytes : Frame → List ℕ
frame_bytes frame =
    let o₁ = append_big_endian 4 [] magic_number in
    let o₂ = append_big_endian 2 o₁ frame.version in
    let o₃ = append_big_endian 2 o₂ frame.message_type in
    let o₄ = append_big_endian 4 o₃ frame.flags in
    let o₅ = append_big_endian 8 o₄ frame.request_id in
    let o₆ = append_big_endian 4 o₅ (length frame.payload % 2 ^ 32) in
    let o₇ = append_big_endian 8 o₆ frame.device_generation in o₇ ++ frame.payload

unfoldable pub encode : Frame → EncodeResult
encode frame =
    if not (frame.version == protocol_version)
    then record {
      error = protocol_error ErrorCode.protocol_version (codes "unsupported UDS protocol version");
      bytes = [];
    }
    else if ltb max_payload_size (length frame.payload) || ltb (2 ^ 32 - 1) (length frame.payload)
    then record {
      error = protocol_error ErrorCode.payload_too_large (codes "UDS payload exceeds limit");
      bytes = [];
    }
    else record { error = success; bytes = frame_bytes frame }

abbrev pub failure : ErrorCode → Text → DecodeResult
failure code message = record { error = protocol_error code message; frame = none }

-- The fields of a header as they are read.
pub record Header : Type 0 where
  pub magic : ℕ
  pub version : ℕ
  pub message_type : ℕ
  pub flags : ℕ
  pub request_id : ℕ
  pub payload_length : ℕ
  pub device_generation : ℕ

infixl 5 ◌>>=◌
abbrev ◌>>=◌ {ℓ κ} : {A : Type ℓ} {B : Type κ} → Option A → (A → Option B) → Option B
none >>= f = none
some a >>= f = f a

unfoldable pub read_header : List ℕ → Option (Header × List ℕ)
read_header bytes = do
  (magic, r₁) ← read_big_endian 4 (2 ^ 32) 0 bytes
  (version, r₂) ← read_big_endian 2 (2 ^ 16) 0 r₁
  (message_type, r₃) ← read_big_endian 2 (2 ^ 16) 0 r₂
  (flags, r₄) ← read_big_endian 4 (2 ^ 32) 0 r₃
  (request_id, r₅) ← read_big_endian 8 (2 ^ 64) 0 r₄
  (payload_length, r₆) ← read_big_endian 4 (2 ^ 32) 0 r₅
  (device_generation, r₇) ← read_big_endian 8 (2 ^ 64) 0 r₆
  some (
    record {
      magic = magic;
      version = version;
      message_type = message_type;
      flags = flags;
      request_id = request_id;
      payload_length = payload_length;
      device_generation = device_generation;
    },
    r₇,
  )

-- The checks of a header against the size of the input, and the payload that follows it.
unfoldable pub checked : ℕ → Header → List ℕ → DecodeResult
checked size h rest =
    if not (h.magic == magic_number)
    then failure ErrorCode.protocol_malformed (codes "UDS frame magic is invalid")
    else if not (h.version == protocol_version)
    then failure ErrorCode.protocol_version (codes "unsupported UDS protocol version")
    else if not (is_known_message_type h.message_type)
    then failure ErrorCode.protocol_malformed (codes "UDS message type is invalid")
    else if ltb max_payload_size h.payload_length
    then failure ErrorCode.payload_too_large (codes "UDS payload exceeds limit")
    else if not (size == header_size + h.payload_length)
    then failure ErrorCode.protocol_malformed (codes "UDS payload length does not match frame")
    else record {
      error = success;
      frame = some (record {
        version = h.version;
        message_type = h.message_type;
        flags = h.flags;
        request_id = h.request_id;
        device_generation = h.device_generation;
        payload = rest;
      });
    }

-- `none` is a read past the end of the input.
unfoldable pub decode : List ℕ → Option DecodeResult
decode bytes =
    if ltb (length bytes) header_size
    then some (failure ErrorCode.protocol_malformed (codes "UDS frame header is truncated"))
    else Option.map (λ h. checked (length bytes) h.0 h.1) (read_header bytes)

-- ===== src/UdsCodec/RoundTrip.antt =====
-- encode and decode of cpp/src/uds_codec.cpp undo one another.
use mathlib.Core.List.{append_assoc}
use native.Mathlib.Nat.{mod-eq_of_lt}
use mini_ocs_nos.Base.{
  ℕ, ◌+◌, ◌*◌, ◌%◌, ◌^◌, ◌≤◌, ◌<◌, ◌≡◌, refl, ap, ◌∙◌, some, List, ◌++◌, arith, length,
  length-append,
}
use mini_ocs_nos.Errors.{success}
use mini_ocs_nos.UdsCodec.{
  Frame, Header, encode, decode, frame_bytes, read_header, checked, read_big_endian, magic_number,
  protocol_version, max_payload_size,
}
use mini_ocs_nos.UdsCodec.BigEndian.{
  big_endian, append_big_endian-append, length-big_endian, read_big_endian-big_endian,
}

-- The bytes of a frame field by field, with the payload last.
abbrev pub layout : Header → List ℕ → List ℕ
layout h payload =
    big_endian 4 h.magic
    ++ (big_endian 2 h.version
        ++ (big_endian 2 h.message_type
            ++ (big_endian 4 h.flags
                ++ (big_endian 8 h.request_id
                    ++ (big_endian 4 h.payload_length
                        ++ (big_endian 8 h.device_generation ++ payload))))))

abbrev pub header_of : Frame → Header
header_of f = record {
  magic = magic_number;
  version = f.version;
  message_type = f.message_type;
  flags = f.flags;
  request_id = f.request_id;
  payload_length = length f.payload % 2 ^ 32;
  device_generation = f.device_generation;
}

frame_bytes-layout : (f : Frame) → frame_bytes f ≡ layout (header_of f) f.payload
unfolding frame_bytes
frame_bytes-layout f = simp (append_big_endian-append, append_assoc)

-- Every field fits its width.
pub record FitsHeader (h : Header) : Type 0 where
  pub magic : h.magic < 2 ^ 32
  pub version : h.version < 2 ^ 16
  pub message_type : h.message_type < 2 ^ 16
  pub flags : h.flags < 2 ^ 32
  pub request_id : h.request_id < 2 ^ 64
  pub payload_length : h.payload_length < 2 ^ 32
  pub device_generation : h.device_generation < 2 ^ 64

read_field :
    (n value : ℕ) (rest : List ℕ)
    → value < 2 ^ (n * 8)
    → read_big_endian n (2 ^ (n * 8)) 0 (big_endian n value ++ rest) ≡ some (value, rest)
read_field n value rest h =
    read_big_endian-big_endian n (2 ^ (n * 8)) 0 value rest (omega arith)
    ∙ ap (λ (t : ℕ). some (t, rest)) (omega (arith, mod-eq_of_lt h))

read_header-layout :
    (h : Header) (payload : List ℕ)
    → FitsHeader h
    → read_header (layout h payload) ≡ some (h, payload)
unfolding read_header
read_header-layout h payload fits = rw (
  read_field 4 h.magic _ fits.magic,
  read_field 2 h.version _ fits.version,
  read_field 2 h.message_type _ fits.message_type,
  read_field 4 h.flags _ fits.flags,
  read_field 8 h.request_id _ fits.request_id,
  read_field 4 h.payload_length _ fits.payload_length,
  read_field 8 h.device_generation payload fits.device_generation,
)

length-layout : (h : Header) (payload : List ℕ) → length (layout h payload) ≡ 32 + length payload
length-layout h payload = simp (length-append, length-big_endian) (omega arith)

-- A frame that decode accepts: a known type, fields that fit, a payload within the limit.
pub record IsFrame (f : Frame) : Type 0 where
  pub version : f.version ≡ protocol_version
  pub message_type : (1 ≤ f.message_type) × (f.message_type ≤ 16)
  pub flags : f.flags < 2 ^ 32
  pub request_id : f.request_id < 2 ^ 64
  pub device_generation : f.device_generation < 2 ^ 64
  pub payload : length f.payload ≤ max_payload_size

encode-IsFrame :
    (f : Frame) → IsFrame f → encode f ≡ record { error = success; bytes = frame_bytes f }
unfolding encode
encode-IsFrame f v = ground arith

header_of-FitsHeader : (f : Frame) → IsFrame f → FitsHeader (header_of f)
header_of-FitsHeader f v = omega arith

checked-header_of :
    (f : Frame)
    → IsFrame f
    → checked (32 + length f.payload) (header_of f) f.payload
      ≡ record { error = success; frame = some f }
unfolding checked
checked-header_of f v =
    let fits : length f.payload % 2 ^ 32 ≡ length f.payload = omega arith in rw fits (ground arith)

decode-header :
    (bytes payload : List ℕ) (h : Header)
    → 32 ≤ length bytes
    → read_header bytes ≡ some (h, payload)
    → decode bytes ≡ some (checked (length bytes) h payload)
unfolding decode
decode-header bytes payload h size e = ground arith

length-frame_bytes : (f : Frame) → length (frame_bytes f) ≡ 32 + length f.payload
length-frame_bytes f = ap length (frame_bytes-layout f) ∙ length-layout (header_of f) f.payload

decode-frame_bytes :
    (f : Frame)
    → IsFrame f
    → decode (frame_bytes f) ≡ some (record { error = success; frame = some f })
decode-frame_bytes f v =
    let size = length-frame_bytes f in
    let read : read_header (frame_bytes f) ≡ some (header_of f, f.payload) =
      ap read_header (frame_bytes-layout f)
      ∙ read_header-layout (header_of f) f.payload (header_of-FitsHeader f v) in
    decode-header (frame_bytes f) f.payload (header_of f) (omega (arith, size)) read
    ∙ ap some (ap (λ (n : ℕ). checked n (header_of f) f.payload) size ∙ checked-header_of f v)

-- A well-formed frame (version 1, a known type, fields that fit, a payload within the limit) is
-- encoded without error in 32 bytes and its payload, and decoded from them unchanged.
pub decode-encode :
    (f : Frame)
    → IsFrame f
    → ((encode f).error ≡ success)
      × (length (encode f).bytes ≡ 32 + length f.payload)
      × (decode (encode f).bytes ≡ some (record { error = success; frame = some f }))
decode-encode f v = rw (encode-IsFrame f v) (refl, length-frame_bytes f, decode-frame_bytes f v)

-- ===== src/Errors.antt =====
-- cpp/include/ocs/errors.hpp and cpp/src/errors.cpp: error codes, their wire names, and Error.
pub mod Names
mod Examples
use mini_ocs_nos.Base.{ℕ, ◌≡◌, refl, ite, Bool, true, false, List, [], ◌∷◌, arith}
use mini_ocs_nos.Base.Text.{Text, codes, text_discrete}

pub data ErrorCode : Type 0 where
  ok invalid_argument invalid_port connection_not_found connection_exists input_conflict
        output_conflict port_disabled port_down device_not_ready apply_timeout apply_failed
        version_stale protocol_malformed protocol_version payload_too_large unsupported
        internal_error :
      ErrorCode

unfoldable pub to_string : ErrorCode → Text
to_string ErrorCode.ok = codes "OCS_OK"
to_string ErrorCode.invalid_argument = codes "OCS_INVALID_ARGUMENT"
to_string ErrorCode.invalid_port = codes "OCS_INVALID_PORT"
to_string ErrorCode.connection_not_found = codes "OCS_CONNECTION_NOT_FOUND"
to_string ErrorCode.connection_exists = codes "OCS_CONNECTION_EXISTS"
to_string ErrorCode.input_conflict = codes "OCS_INPUT_CONFLICT"
to_string ErrorCode.output_conflict = codes "OCS_OUTPUT_CONFLICT"
to_string ErrorCode.port_disabled = codes "OCS_PORT_DISABLED"
to_string ErrorCode.port_down = codes "OCS_PORT_DOWN"
to_string ErrorCode.device_not_ready = codes "OCS_DEVICE_NOT_READY"
to_string ErrorCode.apply_timeout = codes "OCS_APPLY_TIMEOUT"
to_string ErrorCode.apply_failed = codes "OCS_APPLY_FAILED"
to_string ErrorCode.version_stale = codes "OCS_VERSION_STALE"
to_string ErrorCode.protocol_malformed = codes "OCS_PROTOCOL_MALFORMED"
to_string ErrorCode.protocol_version = codes "OCS_PROTOCOL_VERSION"
to_string ErrorCode.payload_too_large = codes "OCS_PAYLOAD_TOO_LARGE"
to_string ErrorCode.unsupported = codes "OCS_UNSUPPORTED"
to_string ErrorCode.internal_error = codes "OCS_INTERNAL_ERROR"

-- The initializer list of the loop in errorCodeFromString, in its order.
unfoldable pub searched_codes : List ErrorCode
searched_codes =
    ErrorCode.ok ∷ ErrorCode.invalid_argument ∷ ErrorCode.invalid_port
    ∷ ErrorCode.connection_not_found ∷ ErrorCode.connection_exists ∷ ErrorCode.input_conflict
    ∷ ErrorCode.output_conflict ∷ ErrorCode.port_disabled ∷ ErrorCode.port_down
    ∷ ErrorCode.device_not_ready ∷ ErrorCode.apply_timeout ∷ ErrorCode.apply_failed
    ∷ ErrorCode.version_stale ∷ ErrorCode.protocol_malformed ∷ ErrorCode.protocol_version
    ∷ ErrorCode.payload_too_large ∷ ErrorCode.unsupported ∷ ErrorCode.internal_error ∷ []

-- The loop: the first code whose name is the value, or internal_error after the last.
unfoldable pub first_named : List ErrorCode → Text → ErrorCode
first_named [] value = ErrorCode.internal_error
first_named (code ∷ rest) value =
    ite (text_discrete (to_string code) value) code (first_named rest value)

unfoldable pub error_code_from_string : Text → ErrorCode
unfolding searched_codes first_named
error_code_from_string value = first_named searched_codes value

pub record Error : Type 0 where
  pub code : ErrorCode
  pub message : Text

-- Error::ok
abbrev pub is_ok : Error → Bool
is_ok e = elim e.code [ ErrorCode.ok ↦ true | _ ↦ false ]

-- Error::success
abbrev pub success : Error
success = record { code = ErrorCode.ok; message = [] }

-- ===== src/UdsJson/Requests.antt =====
-- cpp/src/uds_json.cpp: the payloads about ports, resets and faults.
use mini_ocs_nos.Base.{ℕ, Bool, true, false, [], ◌∷◌, ite, if◌then◌else◌}
use mini_ocs_nos.Base.Text.{Text, codes, text_discrete}
use mini_ocs_nos.Base.Outcome.{Outcome, returns, ◌>>=◌}
use mini_ocs_nos.DeviceTypes.{
  PortState, PortDirection, ResetMode, soft, hard, ResetResult, FaultSpec, FaultResult,
}
use mini_ocs_nos.Json.{JsonLibrary}
use mini_ocs_nos.UdsJson.{text_at, number_at, port_at_field, error_json, parse_error}
use mini_ocs_nos.UdsJson.Names.{
  direction_name, parse_direction, port_status_name, parse_port_status, fault_name, parse_fault,
}

pub record PortRequest : Type 0 where
  pub direction : PortDirection
  pub port_id : ℕ

pub record FaultRequest : Type 0 where
  pub clear : Bool
  pub fault : FaultSpec

abbrev mode_name : ResetMode → Text
mode_name hard = codes "HARD"
mode_name soft = codes "SOFT"

module _ (J : JsonLibrary) where
  unfoldable pub encode_port_request : PortDirection → ℕ → Outcome Text
  unfolding direction_name
  encode_port_request direction port_id = J.dump (
      J.object (
        (codes "direction", J.from_text (direction_name direction))
        ∷ (codes "port_id", J.from_uint64 port_id)
        ∷ []))

  unfoldable pub decode_port_request : Text → Outcome PortRequest
  unfolding parse_direction
  decode_port_request payload = do
    value ← J.parse payload
    direction ← text_at J value (codes "direction")
    port_id ← port_at_field J value (codes "port_id")
    returns (record { direction = parse_direction direction; port_id = port_id })

  unfoldable pub encode_port_state : PortState → Outcome Text
  unfolding direction_name port_status_name
  encode_port_state state = J.dump (
      J.object (
        (codes "id", J.from_uint64 state.id)
        ∷ (codes "direction", J.from_text (direction_name state.direction))
        ∷ (codes "admin_enabled", J.from_bool state.admin_enabled)
        ∷ (codes "oper_status", J.from_text (port_status_name state.oper_status))
        ∷ (codes "optical_power_dbm", J.from_double state.optical_power_dbm)
        ∷ []))

  unfoldable pub decode_port_state : Text → Outcome PortState
  unfolding parse_direction parse_port_status
  decode_port_state payload = do
    value ← J.parse payload
    id ← port_at_field J value (codes "id")
    direction ← text_at J value (codes "direction")
    admin_enabled ← J.at value (codes "admin_enabled") >>= J.get_bool
    oper_status ← text_at J value (codes "oper_status")
    optical_power_dbm ← J.at value (codes "optical_power_dbm") >>= J.get_double
    returns (record {
      id = id;
      direction = parse_direction direction;
      admin_enabled = admin_enabled;
      oper_status = parse_port_status oper_status;
      optical_power_dbm = optical_power_dbm;
    })

  unfoldable pub encode_reset_request : ResetMode → Outcome Text
  encode_reset_request mode = J.dump (J.object ((codes "mode", J.from_text (mode_name mode)) ∷ []))

  unfoldable pub decode_reset_request : Text → Outcome ResetMode
  decode_reset_request payload = do
    value ← J.parse payload
    mode ← text_at J value (codes "mode")
    returns (ite (text_discrete mode (codes "HARD")) hard soft)

  unfoldable pub encode_reset_result : ResetResult → Outcome Text
  unfolding error_json
  encode_reset_result result = J.dump (
      J.object (
        (codes "error", error_json J result.error)
        ∷ (codes "generation", J.from_uint64 result.generation)
        ∷ []))

  unfoldable pub decode_reset_result : Text → Outcome ResetResult
  unfolding parse_error
  decode_reset_result payload = do
    value ← J.parse payload
    error ← J.at value (codes "error") >>= parse_error J
    generation ← number_at J value (codes "generation")
    returns (record { error = error; generation = generation })

  unfoldable pub encode_fault_request : FaultSpec → Bool → Outcome Text
  unfolding fault_name
  encode_fault_request fault clear = J.dump (
      J.object (
        (codes "action", J.from_text (if clear then codes "CLEAR" else codes "INJECT"))
        ∷ (codes "type", J.from_text (fault_name fault.fault_type))
        ∷ (codes "port_id", J.from_uint64 fault.port_id)
        ∷ []))

  unfoldable pub decode_fault_request : Text → Outcome FaultRequest
  unfolding parse_fault
  decode_fault_request payload = do
    value ← J.parse payload
    action ← text_at J value (codes "action")
    type_name ← text_at J value (codes "type")
    port_id ← port_at_field J value (codes "port_id")
    returns (record {
      clear = ite (text_discrete action (codes "CLEAR")) true false;
      fault = record { fault_type = parse_fault type_name; port_id = port_id };
    })

  unfoldable pub encode_fault_result : FaultResult → Outcome Text
  unfolding error_json
  encode_fault_result result = J.dump (J.object ((codes "error", error_json J result.error) ∷ []))

  unfoldable pub decode_fault_result : Text → Outcome FaultResult
  unfolding parse_error
  decode_fault_result payload = do
    value ← J.parse payload
    error ← J.at value (codes "error") >>= parse_error J
    returns (record { error = error })

-- ===== src/Device/State.antt =====
-- The fields of SimulatedOcsDevice, its constructor and its port checks
-- (cpp/src/simulated_ocs_device.cpp). A call holds the mutex throughout, so calls are atomic.
use mathlib.Core.Option
use mini_ocs_nos.Base.{
  ℕ, zero, suc, ◌+◌, ◌%◌, Bool, true, false, not, ◌||◌, Option, none, some, List, [], ◌∷◌, leb, ltb,
  ◌==◌, if◌then◌else◌, get_elem?, replicate,
}
use mini_ocs_nos.Base.Text.{Text, codes}
use mini_ocs_nos.Base.TextMap.{TextMap}
use mini_ocs_nos.Base.Outcome.{Outcome, returns, throws, diverges, Exception, ◌>>=◌}
use mini_ocs_nos.Errors.{ErrorCode, Error, is_ok, success}
use mini_ocs_nos.DeviceTypes.{
  pos, negsuc, AppliedConnection, DeviceInfo, DeviceHealth, DeviceOperStatus, PortDirection, input,
  output, PortState, PortOperStatus, ApplyResult,
}

abbrev pub max_cached_apply_results : ℕ
max_cached_apply_results = 4096

abbrev pub make_error : ErrorCode → Text → Error
make_error code message = record { code = code; message = message }

-- PortState{id, direction, true, PortOperStatus::kUp, -3.0}
abbrev pub fresh_port : PortDirection → ℕ → PortState
fresh_port direction id = record {
  id = id;
  direction = direction;
  admin_enabled = true;
  oper_status = PortOperStatus.up;
  optical_power_dbm = negsuc 29;
}

-- The loop of makePorts. `id` is a uint16_t, so `++id` wraps; `none` is a loop that has not
-- ended within the fuel.
unfoldable pub make_ports_loop : ℕ → PortDirection → ℕ → ℕ → Option (List PortState)
make_ports_loop zero direction id count = none
make_ports_loop (suc fuel) direction id count =
    let rest = make_ports_loop fuel direction ((id + 1) % 65536) count in
    if leb id count then Option.map (λ ps. fresh_port direction id ∷ ps) rest else some []

-- The loop ends after `count` rounds or, at 65535, never.
unfoldable pub make_ports : PortDirection → ℕ → Outcome (List PortState)
unfolding make_ports_loop
make_ports direction count = elim (make_ports_loop (suc count) direction 1 count) [
  | none ↦ diverges
  | some ports ↦ returns ports
]

pub record SimulatedOcsDevice : Type 0 where
  pub info : DeviceInfo
  pub health : DeviceHealth
  pub connections : TextMap AppliedConnection
  pub last_versions : TextMap ℕ
  pub input_to_output : List (Option ℕ)
  pub output_to_input : List (Option ℕ)
  pub input_ports : List PortState
  pub output_ports : List PortState
  pub apply_results : TextMap ApplyResult
  pub apply_result_order : List Text
  pub fail_next_apply : Bool
  pub timeout_next_apply : Bool

abbrev pub ready : DeviceHealth
ready = record { status = DeviceOperStatus.ready; last_error = success }

abbrev pub initial : DeviceInfo → List PortState → List PortState → SimulatedOcsDevice
initial info input_ports output_ports = record {
  info = info;
  health = ready;
  connections = [];
  last_versions = [];
  input_to_output = replicate info.input_port_count none;
  output_to_input = replicate info.output_port_count none;
  input_ports = input_ports;
  output_ports = output_ports;
  apply_results = [];
  apply_result_order = [];
  fail_next_apply = false;
  timeout_next_apply = false;
}

-- The constructor: the members are initialised before the body checks the counts.
unfoldable pub construct : DeviceInfo → Outcome SimulatedOcsDevice
unfolding make_ports
construct info = do
  input_ports ← make_ports input info.input_port_count
  output_ports ← make_ports output info.output_port_count
  if info.input_port_count == 0 || info.output_port_count == 0
      then throws Exception.invalid_argument
      else returns (initial info input_ports output_ports)

abbrev pub port_count : SimulatedOcsDevice → PortDirection → ℕ
port_count d input = d.info.input_port_count
port_count d output = d.info.output_port_count

abbrev pub ports : SimulatedOcsDevice → PortDirection → List PortState
ports d input = d.input_ports
ports d output = d.output_ports

unfoldable pub validate_port : SimulatedOcsDevice → PortDirection → ℕ → Error
validate_port d direction id =
    if id == 0 || ltb (port_count d direction) id
    then make_error ErrorCode.invalid_port (codes "port is outside the configured matrix")
    else success

-- v.at(id - 1), where `none` is std::out_of_range; the promoted `id - 1` of id 0 is out of range.
unfoldable pub port_at {ℓ} : {A : Type ℓ} → List A → ℕ → Option A
port_at xs zero = none
port_at xs (suc i) = get_elem? xs i

abbrev is_up : PortOperStatus → Bool
is_up PortOperStatus.up = true
is_up _ = false

availability : PortState → Error
availability port =
    if not port.admin_enabled
    then make_error ErrorCode.port_disabled (codes "port is administratively disabled")
    else if not (is_up port.oper_status)
    then make_error ErrorCode.port_down (codes "port is not operationally up")
    else success

-- `none` is std::out_of_range.
unfoldable pub validate_port_available : SimulatedOcsDevice → PortDirection → ℕ → Option Error
unfolding validate_port port_at availability
validate_port_available d direction id =
    let error = validate_port d direction id in
    if is_ok error then Option.map availability (port_at (ports d direction) id) else some error

-- getPortState
unfoldable pub get_port_state : SimulatedOcsDevice → PortDirection → ℕ → Option PortState
unfolding validate_port port_at
get_port_state d direction id =
    if is_ok (validate_port d direction id)
    then port_at (ports d direction) id
    else some (record {
      id = id;
      direction = direction;
      admin_enabled = false;
      oper_status = PortOperStatus.unknown;
      optical_power_dbm = pos 0;
    })

-- ===== src/Device/Faults.antt =====
-- Reset, fault injection and clearing, and the administrative state of a port
-- (cpp/src/simulated_ocs_device.cpp).
use mathlib.Core.Option
use mini_ocs_nos.Base.{
  ℕ, ◌+◌, ◌-◌, ◌%◌, ◌^◌, Bool, true, false, Option, none, some, List, [], ◌∷◌, map, if◌then◌else◌,
  set, replicate, length,
}
use mini_ocs_nos.Base.Text.{codes}
use mini_ocs_nos.Base.TextMap.{TextMap, erase, values}
use mini_ocs_nos.Base.Outcome.{Outcome, returns, ◌>>=◌}
use mini_ocs_nos.Errors.{ErrorCode, Error, is_ok, success}
use mini_ocs_nos.DeviceTypes.{
  AppliedConnection, PortDirection, input, output, PortState, PortOperStatus, ResetMode, soft, hard,
  ResetResult, FaultType, FaultSpec, FaultSelector, FaultResult,
}
use mini_ocs_nos.Device.State.{
  SimulatedOcsDevice, make_error, make_ports, port_at, ports, validate_port, ready,
}

unfoldable pub get_connections : SimulatedOcsDevice → List AppliedConnection
get_connections d = values d.connections

abbrev pub next_generation : ResetMode → ℕ → ℕ
next_generation soft generation = generation
next_generation hard generation = (generation + 1) % 2 ^ 64

unfoldable pub reset : SimulatedOcsDevice → ResetMode → Outcome (ResetResult × SimulatedOcsDevice)
reset d mode = do
  input_ports ← make_ports input d.info.input_port_count
  output_ports ← make_ports output d.info.output_port_count
  let info = record d.info { generation = next_generation mode d.info.generation }
  returns (
    record { error = success; generation = info.generation },
    record d {
      info = info;
      health = ready;
      connections = [];
      last_versions = [];
      input_to_output = replicate (length d.input_to_output) none;
      output_to_input = replicate (length d.output_to_input) none;
      input_ports = input_ports;
      output_ports = output_ports;
      apply_results = [];
      apply_result_order = [];
      fail_next_apply = false;
      timeout_next_apply = false;
    },
  )

-- v.at(id - 1) = value; `none` is std::out_of_range.
unfoldable pub write_at {ℓ} : {A : Type ℓ} → List A → ℕ → A → Option (List A)
unfolding port_at
write_at xs id value = Option.map (λ _. set xs (id - 1) value) (port_at xs id)

abbrev pub with_ports : SimulatedOcsDevice → PortDirection → List PortState → SimulatedOcsDevice
with_ports d input ps = record d { input_ports = ps }
with_ports d output ps = record d { output_ports = ps }

-- ports.at(id - 1) rewritten by f; `none` is std::out_of_range.
unfoldable pub update_port :
    SimulatedOcsDevice → PortDirection → ℕ → (PortState → PortState) → Option SimulatedOcsDevice
unfolding port_at
update_port d direction id f =
    Option.map (λ port. with_ports d direction (set (ports d direction) (id - 1) (f port)))
      (port_at (ports d direction) id)

abbrev pub set_status : PortOperStatus → PortState → PortState
set_status status port = record port { oper_status = status }

abbrev pub fault_result : Error → FaultResult
fault_result error = record { error = error }

-- The tail of injectFault and clearFault for a port fault.
unfoldable pub set_port_status :
    SimulatedOcsDevice
    → PortDirection
    → ℕ
    → PortOperStatus
    → Option (FaultResult × SimulatedOcsDevice)
unfolding update_port
set_port_status d direction id status =
    let error = validate_port d direction id in
    if is_ok error
    then Option.map (λ d'. (fault_result success, d'))
        (update_port d direction id (set_status status))
    else some (fault_result error, d)

-- The kOutOfBandDrift branch: the first connection goes, in the order of the map.
unfoldable pub drop_first :
    SimulatedOcsDevice → TextMap AppliedConnection → Option (FaultResult × SimulatedOcsDevice)
unfolding write_at
drop_first d [] = some (
  fault_result
      (make_error ErrorCode.invalid_argument (codes "drift target connection was not found")),
  d,
)
drop_first d ((id, c) ∷ m) = Option.bind (write_at d.input_to_output c.input_port none) λ inputs.
    Option.map
      (λ outputs. (
        fault_result success,
        record d {
          input_to_output = inputs;
          output_to_input = outputs;
          connections = erase id d.connections;
        },
      ))
      (write_at d.output_to_input c.output_port none)

dispatch_inject : FaultType → SimulatedOcsDevice → ℕ → Option (FaultResult × SimulatedOcsDevice)
dispatch_inject FaultType.all d port_id = some (
  fault_result
      (make_error ErrorCode.invalid_argument (codes "ALL is only valid when clearing faults")),
  d,
)
dispatch_inject FaultType.next_apply_error d port_id =
    some (fault_result success, record d { fail_next_apply = true })
dispatch_inject FaultType.next_apply_timeout d port_id =
    some (fault_result success, record d { timeout_next_apply = true })
dispatch_inject FaultType.out_of_band_drift d port_id = drop_first d d.connections
dispatch_inject FaultType.input_port_down d port_id =
    set_port_status d input port_id PortOperStatus.down
dispatch_inject FaultType.output_port_down d port_id =
    set_port_status d output port_id PortOperStatus.down

unfoldable pub inject_fault :
    SimulatedOcsDevice → FaultSpec → Option (FaultResult × SimulatedOcsDevice)
unfolding dispatch_inject
inject_fault d fault = dispatch_inject fault.fault_type d fault.port_id

dispatch_clear : FaultType → SimulatedOcsDevice → ℕ → Option (FaultResult × SimulatedOcsDevice)
dispatch_clear FaultType.all d port_id = some (
  fault_result success,
  record d {
    fail_next_apply = false;
    timeout_next_apply = false;
    input_ports = map (set_status PortOperStatus.up) d.input_ports;
    output_ports = map (set_status PortOperStatus.up) d.output_ports;
  },
)
dispatch_clear FaultType.next_apply_error d port_id =
    some (fault_result success, record d { fail_next_apply = false })
dispatch_clear FaultType.next_apply_timeout d port_id =
    some (fault_result success, record d { timeout_next_apply = false })
dispatch_clear FaultType.out_of_band_drift d port_id = some (fault_result success, d)
dispatch_clear FaultType.input_port_down d port_id =
    set_port_status d input port_id PortOperStatus.up
dispatch_clear FaultType.output_port_down d port_id =
    set_port_status d output port_id PortOperStatus.up

unfoldable pub clear_fault :
    SimulatedOcsDevice → FaultSelector → Option (FaultResult × SimulatedOcsDevice)
unfolding dispatch_clear
clear_fault d selector = dispatch_clear selector.fault_type d selector.port_id

unfoldable pub set_port_admin_state :
    SimulatedOcsDevice → PortDirection → ℕ → Bool → Option (Error × SimulatedOcsDevice)
unfolding update_port
set_port_admin_state d direction id enabled =
    let error = validate_port d direction id in
    if is_ok error
    then Option.map (λ d'. (success, d'))
        (update_port d direction id (λ port. record port { admin_enabled = enabled }))
    else some (error, d)

-- ===== src/Device/FaultInvariant.antt =====
-- Faults, the administrative state and the reset of cpp/src/simulated_ocs_device.cpp keep the
-- switch consistent.
use mini_ocs_nos.Base.{
  ℕ, ◌-◌, ◌≡◌, refl, Bool, false, some, arith, inl, inr, Option-cases, Bool-cases, length,
  length-set, length-map, map, ◌∙◌,
}
use mini_ocs_nos.DeviceTypes.{
  PortDirection, input, output, PortState, PortOperStatus, FaultType, FaultResult,
}
use mini_ocs_nos.Errors.{Error, is_ok}
use mini_ocs_nos.Device.State.{SimulatedOcsDevice, port_at, validate_port}
use mini_ocs_nos.Device.Invariant.{IsConsistent}
use mini_ocs_nos.Device.Faults.{
  update_port, set_port_status, inject_fault, clear_fault, set_port_admin_state, set_status,
}
use mini_ocs_nos.Device.Drift.{drop_first-IsConsistent}

-- All that consistency speaks of is unchanged, but for the states of the ports.
record SamePaths (d d' : SimulatedOcsDevice) : Type 0 where
  info : d'.info ≡ d.info
  connections : d'.connections ≡ d.connections
  input_to_output : d'.input_to_output ≡ d.input_to_output
  output_to_input : d'.output_to_input ≡ d.output_to_input
  input_ports : length d'.input_ports ≡ length d.input_ports
  output_ports : length d'.output_ports ≡ length d.output_ports

SamePaths-IsConsistent :
    {d d' : SimulatedOcsDevice} → SamePaths d d' → IsConsistent d → IsConsistent d'
SamePaths-IsConsistent {d} {d'} s v = record {
  inputs = rw s.info v.inputs;
  outputs = rw s.info v.outputs;
  input_ports = rw s.info (s.input_ports ∙ v.input_ports);
  output_ports = rw s.info (s.output_ports ∙ v.output_ports);
  sorted = rw s.connections v.sorted;
  entries = rw (s.info, s.connections) v.entries;
  exclusive = rw s.connections v.exclusive;
  input_length = rw (s.info, s.input_to_output) v.input_length;
  output_length = rw (s.info, s.output_to_input) v.output_length;
  input_cells = rw (s.info, s.connections, s.input_to_output) v.input_cells;
  output_cells = rw (s.info, s.connections, s.output_to_input) v.output_cells;
}

update_port-SamePaths :
    (d d' : SimulatedOcsDevice) (direction : PortDirection) (id : ℕ) (f : PortState → PortState)
    → update_port d direction id f ≡ some d'
    → SamePaths d d'
unfolding update_port
update_port-SamePaths d d' input id f h = elim (Option-cases (port_at d.input_ports id)) [
  | inl e ↦ ground arith
  | inr (port, e) ↦ ground (arith, length-set d.input_ports (id - 1) (f port))
]
update_port-SamePaths d d' output id f h = elim (Option-cases (port_at d.output_ports id)) [
  | inl e ↦ ground arith
  | inr (port, e) ↦ ground (arith, length-set d.output_ports (id - 1) (f port))
]

SamePaths-refl : (d : SimulatedOcsDevice) → SamePaths d d
SamePaths-refl d = ground arith

set_port_status-SamePaths :
    (d d' : SimulatedOcsDevice) (direction : PortDirection) (id : ℕ) (s : PortOperStatus)
    (r : FaultResult)
    → set_port_status d direction id s ≡ some (r, d')
    → SamePaths d d'
unfolding set_port_status
set_port_status-SamePaths d d' direction id s r h =
    elim (Bool-cases (is_ok (validate_port d direction id))) [
      | inr bad ↦ let e : d ≡ d' = ground arith in rw (← e) (SamePaths-refl d)
      | inl good ↦ elim (Option-cases (update_port d direction id (set_status s))) [
        | inl e ↦ ground arith
        | inr (u, e) ↦ update_port-SamePaths d d' direction id (set_status s) (ground arith)
      ]
    ]

abbrev cleared : SimulatedOcsDevice → SimulatedOcsDevice
cleared d = record d {
  fail_next_apply = false;
  timeout_next_apply = false;
  input_ports = map (set_status PortOperStatus.up) d.input_ports;
  output_ports = map (set_status PortOperStatus.up) d.output_ports;
}

cleared-SamePaths : (d : SimulatedOcsDevice) → SamePaths d (cleared d)
cleared-SamePaths d = record {
  info = refl;
  connections = refl;
  input_to_output = refl;
  output_to_input = refl;
  input_ports = length-map (set_status PortOperStatus.up) d.input_ports;
  output_ports = length-map (set_status PortOperStatus.up) d.output_ports;
}

-- Every injected fault, whether it is accepted or not, keeps the switch consistent: the
-- out-of-band drift empties the two cells of the connection that it removes.
pub inject_fault-IsConsistent :
    (d d' : SimulatedOcsDevice) (fault_type : FaultType) (port_id : ℕ) (r : FaultResult)
    → IsConsistent d
    → inject_fault d (record { fault_type = fault_type; port_id = port_id }) ≡ some (r, d')
    → IsConsistent d'
unfolding inject_fault
inject_fault-IsConsistent d d' FaultType.all p r v h = SamePaths-IsConsistent (ground arith) v
inject_fault-IsConsistent d d' FaultType.next_apply_error p r v h =
    SamePaths-IsConsistent (ground arith) v
inject_fault-IsConsistent d d' FaultType.next_apply_timeout p r v h =
    SamePaths-IsConsistent (ground arith) v
inject_fault-IsConsistent d d' FaultType.out_of_band_drift p r v h =
    drop_first-IsConsistent d d' d.connections r refl v h
inject_fault-IsConsistent d d' FaultType.input_port_down p r v h =
    SamePaths-IsConsistent (set_port_status-SamePaths d d' input p PortOperStatus.down r h) v
inject_fault-IsConsistent d d' FaultType.output_port_down p r v h =
    SamePaths-IsConsistent (set_port_status-SamePaths d d' output p PortOperStatus.down r h) v

pub clear_fault-IsConsistent :
    (d d' : SimulatedOcsDevice) (fault_type : FaultType) (port_id : ℕ) (r : FaultResult)
    → IsConsistent d
    → clear_fault d (record { fault_type = fault_type; port_id = port_id }) ≡ some (r, d')
    → IsConsistent d'
unfolding clear_fault
clear_fault-IsConsistent d d' FaultType.all p r v h =
    let same : d' ≡ cleared d = ground arith in
    rw same (SamePaths-IsConsistent (cleared-SamePaths d) v)
clear_fault-IsConsistent d d' FaultType.next_apply_error p r v h =
    SamePaths-IsConsistent (ground arith) v
clear_fault-IsConsistent d d' FaultType.next_apply_timeout p r v h =
    SamePaths-IsConsistent (ground arith) v
clear_fault-IsConsistent d d' FaultType.out_of_band_drift p r v h =
    SamePaths-IsConsistent (ground arith) v
clear_fault-IsConsistent d d' FaultType.input_port_down p r v h =
    SamePaths-IsConsistent (set_port_status-SamePaths d d' input p PortOperStatus.up r h) v
clear_fault-IsConsistent d d' FaultType.output_port_down p r v h =
    SamePaths-IsConsistent (set_port_status-SamePaths d d' output p PortOperStatus.up r h) v

pub set_port_admin_state-IsConsistent :
    (d d' : SimulatedOcsDevice) (direction : PortDirection) (id : ℕ) (enabled : Bool) (e : Error)
    → IsConsistent d
    → set_port_admin_state d direction id enabled ≡ some (e, d')
    → IsConsistent d'
unfolding set_port_admin_state
set_port_admin_state-IsConsistent d d' direction id enabled e v h =
    elim (Bool-cases (is_ok (validate_port d direction id))) [
      | inr bad ↦
          SamePaths-IsConsistent (let e : d ≡ d' = ground arith in rw (← e) (SamePaths-refl d)) v
      | inl good ↦
          elim (Option-cases
            (update_port d direction id (λ port. record port { admin_enabled = enabled }))) [
              | inl e ↦ ground arith
              | inr (u, e) ↦
                  SamePaths-IsConsistent
                    (update_port-SamePaths d d' direction id
                      (λ port. record port { admin_enabled = enabled }) (ground arith))
                    v
            ]
    ]

-- ===== src/Device/Reset.antt =====
-- The constructor and the reset of cpp/src/simulated_ocs_device.cpp.
use mini_ocs_nos.Base.{ℕ, ◌≤◌, ◌<◌, ◌≡◌, refl, ap, Option, none, arith, length-replicate, replicate}
use mini_ocs_nos.Base.Outcome.{returns}
use mini_ocs_nos.DeviceTypes.{DeviceInfo, input, output, ResetMode}
use mini_ocs_nos.Errors.{success}
use mini_ocs_nos.Device.State.{SimulatedOcsDevice, construct, initial}
use mini_ocs_nos.Device.Ports.{ports_from, make_ports-returns, length-ports_from}
use mini_ocs_nos.Base.TextMap.{find}
use mini_ocs_nos.Device.Routes.{route, back_route}
use mini_ocs_nos.Device.Invariant.{IsConsistent, empty_cell}
use mini_ocs_nos.Device.Cache.{Cached}
use mini_ocs_nos.Device.Faults.{reset, next_generation}

-- Both port counts are positive and below 65535.
abbrev pub IsBuildable : DeviceInfo → Type 0
IsBuildable info =
    (1 ≤ info.input_port_count)
    × (info.input_port_count < 65535)
    × (1 ≤ info.output_port_count)
    × (info.output_port_count < 65535)

-- The device as it is when new.
abbrev pub new : DeviceInfo → SimulatedOcsDevice
new info =
    initial info (ports_from input 1 info.input_port_count)
      (ports_from output 1 info.output_port_count)

pub construct-returns : (info : DeviceInfo) → IsBuildable info → construct info ≡ returns (new info)
unfolding construct
construct-returns info h = ground (
  arith,
  make_ports-returns input info.input_port_count h.1,
  make_ports-returns output info.output_port_count h.3,
)

pub new-IsConsistent : (info : DeviceInfo) → IsBuildable info → IsConsistent (new info)
unfolding route back_route
new-IsConsistent info h = record {
  inputs = (h.0, h.1);
  outputs = (h.2, h.3);
  input_ports = length-ports_from input 1 info.input_port_count;
  output_ports = length-ports_from output 1 info.output_port_count;
  sorted = tt;
  entries = tt;
  exclusive = tt;
  input_length = length-replicate {A = Option ℕ} info.input_port_count none;
  output_length = length-replicate {A = Option ℕ} info.output_port_count none;
  input_cells = λ p a b. empty_cell info.input_port_count p a b;
  output_cells = λ p a b. empty_cell info.output_port_count p a b;
}

pub new-Cached : (info : DeviceInfo) → Cached (new info)
unfolding find
new-Cached info = record { sorted = tt; sizes = refl; bounded = omega arith; counted = λ k. refl }

-- The information of a device after a reset: a hard reset raises the generation by one, modulo
-- 2^64.
abbrev pub info_after : ResetMode → DeviceInfo → DeviceInfo
info_after mode info = record info { generation = next_generation mode info.generation }

pub reset-returns :
    (d : SimulatedOcsDevice) (mode : ResetMode)
    → IsConsistent d
    → reset d mode
      ≡ returns (
        record { error = success; generation = next_generation mode d.info.generation },
        new (info_after mode d.info),
      )
unfolding reset
reset-returns d mode v = ground (
  arith,
  make_ports-returns input d.info.input_port_count v.inputs.1,
  make_ports-returns output d.info.output_port_count v.outputs.1,
  v.input_length,
  v.output_length,
  ap (λ (n : ℕ). replicate {A = Option ℕ} n none) v.input_length,
  ap (λ (n : ℕ). replicate {A = Option ℕ} n none) v.output_length,
)

-- Reset of a consistent switch succeeds, and the device is then the one that the constructor makes
-- of its information, in which at most the generation changed.
pub reset-construct :
    (d : SimulatedOcsDevice) (mode : ResetMode)
    → IsConsistent d
    → (d' : SimulatedOcsDevice) × (reset d mode
        ≡ returns
            (record { error = success; generation = next_generation mode d.info.generation }, d'))
      × (construct (info_after mode d.info) ≡ returns d')
reset-construct d mode v = (
  new (info_after mode d.info),
  reset-returns d mode v,
  construct-returns (info_after mode d.info) (v.inputs.0, v.inputs.1, v.outputs.0, v.outputs.1),
)

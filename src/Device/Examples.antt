-- ===== src/Device/Examples.antt =====
-- Tests and instances for the simulated switch (cpp/src/simulated_ocs_device.cpp): a 2x2 matrix.
use mathlib.Core.List.{Memᴰ}
use mathlib.Core.Option
use mini_ocs_nos.Base.{ℕ, ◌≡◌, ◌≢◌, refl, true, Option, none, some, List, [], ◌∷◌, arith}
use mini_ocs_nos.Base.Text.{Text, text_discrete, compare_text}
use mini_ocs_nos.Base.TextMap.{find, insert_or_assign, erase}
use mini_ocs_nos.Base.Outcome.{returns}
use mini_ocs_nos.Errors.{ErrorCode, success}
use mini_ocs_nos.DeviceTypes.{
  pos, ConnectionCommand, upsert, ApplyOptions, ApplyResult, DeviceInfo, FaultType, FaultResult,
  hard, input,
}
use mini_ocs_nos.Device.State.{
  SimulatedOcsDevice, construct, make_ports, make_ports_loop, validate_port_available,
}
use mini_ocs_nos.Device.Ports.{ports_from, make_ports-returns, make_ports_loop_endless}
use mini_ocs_nos.Device.Apply.{
  apply_connections, cached_result, rejection, any_stale, stage, cross_connect, attempt, candidate,
  commit, record_versions, changed, finish, make_room, stage_command, require_free, applied,
}
use mini_ocs_nos.Device.Staging.{asked, last_for}
use mini_ocs_nos.Device.Routes.{Apart}
use mini_ocs_nos.Device.Invariant.{IsConsistent}
use mini_ocs_nos.Device.Atomic.{
  SameSwitch, apply_connections-IsConsistent, apply_connections_all_or_nothing,
  find-apply_connections,
}
use mini_ocs_nos.Device.Total.{apply_connections-returns}
use mini_ocs_nos.Device.Cache.{apply_connections_replay}
use mini_ocs_nos.Device.Versions.{
  AtLeast, ChangesOnlyCache, apply_connections-AtLeast, apply_connections_stale,
}
use mini_ocs_nos.Device.Faults.{inject_fault, reset, drop_first}
use mini_ocs_nos.Device.Reset.{
  IsBuildable, new, construct-returns, new-IsConsistent, reset-construct, info_after,
}
use mini_ocs_nos.Device.Histories.{Reach, Call, Healthy, Reach-Healthy, Reach-Apart}

abbrev small : DeviceInfo
small = record {
  name = [];
  input_port_count = 2;
  output_port_count = 2;
  model = [];
  serial_number = [];
  firmware_version = [];
  generation = 7;
}

small-IsBuildable : IsBuildable small
small-IsBuildable = omega arith

abbrev a : Text
a = 97 ∷ []

abbrev b : Text
b = 98 ∷ []

abbrev connect : Text → ℕ → ℕ → ℕ → ConnectionCommand
connect id i o v = record {
  operation = upsert;
  id = id;
  input_port = i;
  output_port = o;
  desired_version = v;
}

abbrev options : Text → ApplyOptions
options op = record { atomic = true; timeout = pos 1000; operation_id = op }

abbrev crossed : List ConnectionCommand
crossed = connect a 1 2 5 ∷ connect b 2 1 6 ∷ []

abbrev clash : List ConnectionCommand
clash = connect a 1 2 7 ∷ []

-- The result and the device of a call that returned.
abbrev value {ℓ} :
    {R : Type ℓ} → R × SimulatedOcsDevice → Option (R × SimulatedOcsDevice) → R × SimulatedOcsDevice
value d none = d
value d (some x) = x

abbrev op : Text
op = 49 ∷ []

abbrev first : ApplyResult × SimulatedOcsDevice
first = value (rejection success, new small) (apply_connections (new small) crossed (options op))

-- Names what a run of the device computes with.
apply_run :
    SimulatedOcsDevice
    → List ConnectionCommand
    → ApplyOptions
    → Option (ApplyResult × SimulatedOcsDevice)
unfolding apply_connections attempt candidate cached_result any_stale stage stage_command
    cross_connect commit finish make_room find insert_or_assign erase record_versions changed
    text_discrete compare_text validate_port_available require_free
apply_run = apply_connections

first_lem : apply_connections (new small) crossed (options op) ≡ some (first.0, first.1)
unfolding apply_run
first_lem = refl

first_connections : first.1.input_to_output ≡ some 2 ∷ some 1 ∷ []
unfolding apply_run
first_connections = refl

-- A second batch moves connection b onto the output that connection a holds.
abbrev conflict : ApplyResult × SimulatedOcsDevice
conflict = value first (apply_connections first.1 (connect b 2 2 7 ∷ []) (options []))

conflict_lem :
    apply_connections first.1 (connect b 2 2 7 ∷ []) (options []) ≡ some (conflict.0, conflict.1)
unfolding apply_run
conflict_lem = refl

conflict_code : conflict.0.error.code ≡ ErrorCode.output_conflict
unfolding apply_run
conflict_code = refl

apply_connections_all_or_nothing_example : SameSwitch first.1 conflict.1
unfolding apply_run
apply_connections_all_or_nothing_example =
    apply_connections_all_or_nothing first.1 (connect b 2 2 7 ∷ []) (options []) conflict.0
      conflict.1 conflict_lem refl

find-apply_connections_example :
    find a first.1.connections ≡ asked (last_for a crossed) (find a (new small).connections)
unfolding apply_run
find-apply_connections_example =
    find-apply_connections (new small) crossed (options op) first.0 first.1 a first_lem refl refl

apply_connections-returns_example :
    (r : ApplyResult) × (d : SimulatedOcsDevice) × (apply_connections (new small) clash (options op)
      ≡ some (r, d))
apply_connections-returns_example =
    apply_connections-returns (new small) (new-IsConsistent small small-IsBuildable) clash
      (options op)

op-ne-nil : op ≢ []
op-ne-nil e = cc

apply_connections_replay_example :
    apply_connections first.1 clash (options op) ≡ some (first.0, first.1)
apply_connections_replay_example =
    apply_connections_replay (new small) crossed clash (options op) (options op) first.0 first.1
      op-ne-nil refl first_lem

apply_connections-AtLeast_example : AtLeast 5 (find a conflict.1.last_versions)
unfolding apply_run
apply_connections-AtLeast_example =
    apply_connections-AtLeast first.1 (connect b 2 2 7 ∷ []) (options []) conflict.0 conflict.1 a 5
      conflict_lem refl

apply_connections_stale_example :
    (r : ApplyResult) × (d' : SimulatedOcsDevice) × (apply_connections first.1
        (connect a 1 1 4 ∷ [])
        (options [])
      ≡ some (r, d'))
    × (r.error.code ≡ ErrorCode.version_stale)
    × ChangesOnlyCache first.1 d'
unfolding apply_run
apply_connections_stale_example =
    apply_connections_stale first.1 (connect a 1 1 4 ∷ []) (options []) (connect a 1 1 4) 5
      (Memᴰ.head refl) refl (omega arith) (omega arith) refl refl

abbrev drifted : FaultResult × SimulatedOcsDevice
drifted =
    value (record { error = success }, first.1)
      (inject_fault first.1 (record { fault_type = FaultType.out_of_band_drift; port_id = 0 }))

drifted_lem :
    inject_fault first.1 (record { fault_type = FaultType.out_of_band_drift; port_id = 0 })
    ≡ some (drifted.0, drifted.1)
unfolding apply_run inject_fault drop_first Option.bind
drifted_lem = refl

first-IsConsistent : IsConsistent first.1
first-IsConsistent =
    apply_connections-IsConsistent (new small) crossed (options op) first.0 first.1
      (new-IsConsistent small small-IsBuildable) first_lem

reset-construct_example :
    (d : SimulatedOcsDevice) × (reset first.1 hard
      ≡ returns (record { error = success; generation = 8 }, d))
    × (construct (info_after hard first.1.info) ≡ returns d)
unfolding apply_run
reset-construct_example = reset-construct first.1 hard first-IsConsistent

make_ports-returns_example : make_ports input 2 ≡ returns (ports_from input 1 2)
make_ports-returns_example = make_ports-returns input 2 (omega arith)

make_ports_loop_endless_example : make_ports_loop 9 input 1 65535 ≡ none
make_ports_loop_endless_example = make_ports_loop_endless 9 input 1 (omega arith)

history : Reach small first.1
history =
    Reach.called (Reach.built (construct-returns small small-IsBuildable))
      (Call.applies crossed (options op) first.0 first_lem)

Reach-Healthy_example : Healthy first.1
Reach-Healthy_example = Reach-Healthy small first.1 small-IsBuildable history

Reach-Apart_example : Apart (applied (connect a 1 2 5)) (applied (connect b 2 1 6))
unfolding apply_run
Reach-Apart_example =
    Reach-Apart small first.1 a b _ _ small-IsBuildable history refl refl (λ e. grind arith)

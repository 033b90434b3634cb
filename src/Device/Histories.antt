-- ===== src/Device/Histories.antt =====
-- Every history of calls of the simulated switch (cpp/src/simulated_ocs_device.cpp) from its
-- construction; a call holds the mutex, so the calls of several threads are such a history.
use mathlib.Core.Option
use mini_ocs_nos.Base.{ℕ, ◌≡◌, ◌≢◌, Bool, some, List, [], ◌∷◌, arith}
use mini_ocs_nos.Base.Text.{Text}
use mini_ocs_nos.Base.TextMap.{TextMap, find}
use mini_ocs_nos.Base.TextMap.Laws.{AllEntries, AllEntries-find}
use mini_ocs_nos.Base.Outcome.{returns}
use mini_ocs_nos.Errors.{Error}
use mini_ocs_nos.DeviceTypes.{
  AppliedConnection, ConnectionCommand, ApplyOptions, ApplyResult, DeviceInfo, PortDirection, input,
  output, PortOperStatus, ResetMode, ResetResult, FaultType, FaultResult,
}
use mini_ocs_nos.Device.State.{SimulatedOcsDevice, construct}
use mini_ocs_nos.Device.Apply.{apply_connections}
use mini_ocs_nos.Device.Faults.{
  reset, inject_fault, clear_fault, set_port_admin_state, set_port_status, drop_first,
}
use mini_ocs_nos.Device.Routes.{Exclusive, Apart}
use mini_ocs_nos.Device.Invariant.{IsConsistent}
use mini_ocs_nos.Device.Atomic.{apply_connections-IsConsistent}
use mini_ocs_nos.Device.Cache.{Cached, apply_connections-Cached}
use mini_ocs_nos.Device.FaultInvariant.{
  inject_fault-IsConsistent, clear_fault-IsConsistent, set_port_admin_state-IsConsistent,
}
use mini_ocs_nos.Device.Reset.{
  IsBuildable, new, construct-returns, new-IsConsistent, new-Cached, reset-returns, info_after,
}

-- One call that changes the state, with any arguments.
pub data Call (d d' : SimulatedOcsDevice) : Type 0 where
  applies :
      (cs : List ConnectionCommand) (o : ApplyOptions) (r : ApplyResult)
      → apply_connections d cs o ≡ some (r, d')
      → Call d d'
  resets : (mode : ResetMode) (r : ResetResult) → reset d mode ≡ returns (r, d') → Call d d'
  injects :
      (t : FaultType) (port : ℕ) (r : FaultResult)
      → inject_fault d (record { fault_type = t; port_id = port }) ≡ some (r, d')
      → Call d d'
  clears :
      (t : FaultType) (port : ℕ) (r : FaultResult)
      → clear_fault d (record { fault_type = t; port_id = port }) ≡ some (r, d')
      → Call d d'
  administers :
      (direction : PortDirection) (port : ℕ) (enabled : Bool) (e : Error)
      → set_port_admin_state d direction port enabled ≡ some (e, d')
      → Call d d'

-- A device built from the information, and any calls of it.
pub data Reach (info : DeviceInfo) : SimulatedOcsDevice → Type 0 where
  built : {d : SimulatedOcsDevice} → construct info ≡ returns d → Reach info d
  called : {d d' : SimulatedOcsDevice} → Reach info d → Call d d' → Reach info d'

abbrev pub Healthy : SimulatedOcsDevice → Type 0
Healthy d = IsConsistent d × Cached d

abbrev SameCache : SimulatedOcsDevice → SimulatedOcsDevice → Type 0
SameCache d d' =
    (d'.apply_results ≡ d.apply_results) × (d'.apply_result_order ≡ d.apply_result_order)

SameCache-Cached : (d d' : SimulatedOcsDevice) → SameCache d d' → Cached d → Cached d'
SameCache-Cached d d' s v = rw (s.0, s.1) v

set_port_status-SameCache :
    (d d' : SimulatedOcsDevice) (direction : PortDirection) (p : ℕ) (s : PortOperStatus)
    (r : FaultResult)
    → set_port_status d direction p s ≡ some (r, d')
    → SameCache d d'
unfolding set_port_status
set_port_status-SameCache d d' input p s r h = ground arith
set_port_status-SameCache d d' output p s r h = ground arith

inject_fault-SameCache :
    (d d' : SimulatedOcsDevice) (t : FaultType) (p : ℕ) (r : FaultResult)
    → inject_fault d (record { fault_type = t; port_id = p }) ≡ some (r, d')
    → SameCache d d'
unfolding inject_fault drop_first Option.bind
inject_fault-SameCache d d' FaultType.input_port_down p r h =
    set_port_status-SameCache d d' input p PortOperStatus.down r h
inject_fault-SameCache d d' FaultType.output_port_down p r h =
    set_port_status-SameCache d d' output p PortOperStatus.down r h
inject_fault-SameCache d d' FaultType.out_of_band_drift p r h = dropped d.connections h
  where
    dropped : (m : TextMap AppliedConnection) → drop_first d m ≡ some (r, d') → SameCache d d'
    dropped [] e = ground arith
    dropped (x ∷ m) e = ground arith
inject_fault-SameCache d d' _ p r h = ground arith

clear_fault-SameCache :
    (d d' : SimulatedOcsDevice) (t : FaultType) (p : ℕ) (r : FaultResult)
    → clear_fault d (record { fault_type = t; port_id = p }) ≡ some (r, d')
    → SameCache d d'
unfolding clear_fault
clear_fault-SameCache d d' FaultType.input_port_down p r h =
    set_port_status-SameCache d d' input p PortOperStatus.up r h
clear_fault-SameCache d d' FaultType.output_port_down p r h =
    set_port_status-SameCache d d' output p PortOperStatus.up r h
clear_fault-SameCache d d' _ p r h = ground arith

set_port_admin_state-SameCache :
    (d d' : SimulatedOcsDevice) (direction : PortDirection) (p : ℕ) (enabled : Bool) (e : Error)
    → set_port_admin_state d direction p enabled ≡ some (e, d')
    → SameCache d d'
unfolding set_port_admin_state
set_port_admin_state-SameCache d d' input p enabled e h = ground arith
set_port_admin_state-SameCache d d' output p enabled e h = ground arith

Call-Healthy : {d d' : SimulatedOcsDevice} → Call d d' → Healthy d → Healthy d'
Call-Healthy {d} {d'} (applies cs o r h) (v, w) =
    (apply_connections-IsConsistent d cs o r d' v h, apply_connections-Cached d cs o r d' w h)
Call-Healthy {d} {d'} (resets mode r h) (v, w) =
    let e : d' ≡ new (info_after mode d.info) = ground (arith, reset-returns d mode v) in
    rw e (
      new-IsConsistent (info_after mode d.info) (v.inputs.0, v.inputs.1, v.outputs.0, v.outputs.1),
      new-Cached (info_after mode d.info),
    )
Call-Healthy {d} {d'} (injects t p r h) (v, w) = (
  inject_fault-IsConsistent d d' t p r v h,
  SameCache-Cached d d' (inject_fault-SameCache d d' t p r h) w,
)
Call-Healthy {d} {d'} (clears t p r h) (v, w) = (
  clear_fault-IsConsistent d d' t p r v h,
  SameCache-Cached d d' (clear_fault-SameCache d d' t p r h) w,
)
Call-Healthy {d} {d'} (administers n p b e h) (v, w) = (
  set_port_admin_state-IsConsistent d d' n p b e v h,
  SameCache-Cached d d' (set_port_admin_state-SameCache d d' n p b e h) w,
)

-- After any calls of a device that was built with fitting port counts, the connections share no
-- port and lie in the matrix, the cross-connect tables are exactly theirs, the ports are as many
-- as the counts, and the cache holds at most 4096 results, each queued once.
pub Reach-Healthy :
    (info : DeviceInfo) (d : SimulatedOcsDevice) → IsBuildable info → Reach info d → Healthy d
Reach-Healthy info d b (built h) =
    let e : d ≡ new info = ground (arith, construct-returns info b) in
    rw e (new-IsConsistent info b, new-Cached info)
Reach-Healthy info d b (called {d = c} r s) = Call-Healthy s (Reach-Healthy info c b r)

AllEntries-lookup :
    (c : AppliedConnection) (m : TextMap AppliedConnection) (j : Text) (e : AppliedConnection)
    → AllEntries (λ k x. Apart c x) m
    → find j m ≡ some e
    → Apart c e
AllEntries-lookup c m j e a h = AllEntries-find (λ k x. Apart c x) j e m a h

Exclusive-find :
    (m : TextMap AppliedConnection) (i j : Text) (a b : AppliedConnection)
    → Exclusive m
    → find i m ≡ some a
    → find j m ≡ some b
    → i ≢ j
    → Apart a b
unfolding find
Exclusive-find [] i j a b x h k n = cc
Exclusive-find ((k, c) ∷ m) i j a b x h l n = ground (
  arith,
  Exclusive-find m i j a b x.1,
  AllEntries-lookup c m j b x.0,
  AllEntries-lookup c m i a x.0,
)

-- After any calls, two connections with different ids use different inputs and different outputs.
pub Reach-Apart :
    (info : DeviceInfo) (d : SimulatedOcsDevice) (i j : Text) (a b : AppliedConnection)
    → IsBuildable info
    → Reach info d
    → find i d.connections ≡ some a
    → find j d.connections ≡ some b
    → i ≢ j
    → Apart a b
Reach-Apart info d i j a b w r h k n =
    Exclusive-find d.connections i j a b (Reach-Healthy info d w r).0.exclusive h k n

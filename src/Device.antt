-- ===== src/Device.antt =====
-- cpp/include/ocs/simulated_ocs_device.hpp and cpp/src/simulated_ocs_device.cpp: the simulated
-- optical switch. State has its fields and ports, Apply the atomic apply, Faults the faults, the
-- administrative state and the reset; the other children are proofs.
pub mod State
pub mod Apply
pub mod Faults
pub mod Ports
pub mod Cells
pub mod Routes
pub mod Staging
pub mod Invariant
pub mod Atomic
pub mod Total
pub mod Cache
pub mod Versions
pub mod Drift
pub mod FaultInvariant
pub mod Reset
pub mod Histories
mod Examples
pub mod Refusals

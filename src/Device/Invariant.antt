-- ===== src/Device/Invariant.antt =====
-- The consistency of the simulated switch of cpp/src/simulated_ocs_device.cpp: its connections
-- are exclusive and its cross-connect tables are theirs.
use mini_ocs_nos.Base.{
  ℕ, ◌≤◌, ◌<◌, ◌≡◌, ap, Option, none, some, List, arith, length, length-replicate, replicate, ◌∙◌,
}
use mini_ocs_nos.Base.TextMap.{IsSorted}
use mini_ocs_nos.DeviceTypes.{ConnectionCommand}
use mini_ocs_nos.Device.State.{SimulatedOcsDevice, port_at}
use mini_ocs_nos.Device.Cells.{port_at-some, port_at-replicate}
use mini_ocs_nos.Device.Routes.{route, back_route, Exclusive, cross_connect-Entered}
use mini_ocs_nos.Device.Staging.{Entries, stage-Entries}
use mini_ocs_nos.Device.Apply.{
  accepted, Candidate, candidate, stage, cross_connect, empty_tables, >>=-accepted,
}

-- The counts are positive and below 65535, the ports are as many, the connections are an ordered
-- map of exclusive entries, and each cell of a table holds the route of the connections.
pub record IsConsistent (d : SimulatedOcsDevice) : Type 0 where
  pub inputs : (1 ≤ d.info.input_port_count) × (d.info.input_port_count < 65535)
  pub outputs : (1 ≤ d.info.output_port_count) × (d.info.output_port_count < 65535)
  pub input_ports : length d.input_ports ≡ d.info.input_port_count
  pub output_ports : length d.output_ports ≡ d.info.output_port_count
  pub sorted : IsSorted d.connections
  pub entries : Entries d d.connections
  pub exclusive : Exclusive d.connections
  pub input_length : length d.input_to_output ≡ d.info.input_port_count
  pub output_length : length d.output_to_input ≡ d.info.output_port_count
  pub input_cells :
      (p : ℕ)
      → 1 ≤ p
      → p ≤ d.info.input_port_count
      → port_at d.input_to_output p ≡ some (route p d.connections)
  pub output_cells :
      (p : ℕ)
      → 1 ≤ p
      → p ≤ d.info.output_port_count
      → port_at d.output_to_input p ≡ some (back_route p d.connections)

-- What the stages of an apply prove of the candidate that they accept.
pub record IsSound (d : SimulatedOcsDevice) (c : Candidate) : Type 0 where
  pub sorted : IsSorted c.connections
  pub entries : Entries d c.connections
  pub exclusive : Exclusive c.connections
  pub input_length : length c.tables.input_to_output ≡ d.info.input_port_count
  pub output_length : length c.tables.output_to_input ≡ d.info.output_port_count
  pub input_cells :
      (p : ℕ)
      → 1 ≤ p
      → p ≤ d.info.input_port_count
      → port_at c.tables.input_to_output p ≡ some (route p c.connections)
  pub output_cells :
      (p : ℕ)
      → 1 ≤ p
      → p ≤ d.info.output_port_count
      → port_at c.tables.output_to_input p ≡ some (back_route p c.connections)

pub empty_cell : (n p : ℕ) → 1 ≤ p → p ≤ n → port_at {A = Option ℕ} (replicate n none) p ≡ some none
empty_cell n p h k =
    let (a, e) =
      port_at-some {A = Option ℕ} (replicate n none) p h
        (omega (arith, length-replicate {A = Option ℕ} n none)) in
    let q = port_at-replicate n p none a e in e ∙ ap some q

pub candidate-parts :
    (d : SimulatedOcsDevice) (commands : List ConnectionCommand) (c : Candidate)
    → candidate d commands ≡ accepted c
    → (stage d commands d.connections ≡ accepted c.connections)
      × (cross_connect c.connections (empty_tables d) ≡ accepted c.tables)
unfolding candidate
candidate-parts d commands c h =
    let (m, x, y) = >>=-accepted (stage d commands d.connections) _ h in
    let (t, z, w) = >>=-accepted (cross_connect m (empty_tables d)) _ y in ground arith

pub candidate-IsSound :
    (d : SimulatedOcsDevice) (commands : List ConnectionCommand) (c : Candidate)
    → IsConsistent d
    → candidate d commands ≡ accepted c
    → IsSound d c
candidate-IsSound d commands c v h =
    let (x, y) = candidate-parts d commands c h in
    let (es, so) = stage-Entries d commands d.connections c.connections x v.entries v.sorted in
    let en = cross_connect-Entered c.connections (empty_tables d) c.tables y in
    record {
      sorted = so;
      entries = es;
      exclusive = en.exclusive;
      input_length =
          omega
            (arith, en.input_length, length-replicate {A = Option ℕ} d.info.input_port_count none);
      output_length =
          omega (
            arith,
            en.output_length,
            length-replicate {A = Option ℕ} d.info.output_port_count none,
          );
      input_cells = λ p h k. ground (arith, en.inputs p, empty_cell d.info.input_port_count p h k);
      output_cells =
          λ p h k. ground (arith, en.outputs p, empty_cell d.info.output_port_count p h k);
    }

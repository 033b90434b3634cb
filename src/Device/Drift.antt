-- ===== src/Device/Drift.antt =====
-- The out-of-band drift of cpp/src/simulated_ocs_device.cpp keeps the switch consistent.
use mathlib.Core.Option
use mini_ocs_nos.Base.{
  ℕ, ◌-◌, ◌≡◌, refl, ap, Option, none, some, List, [], ◌∷◌, arith, length-set, set, ◌∙◌, ℕ_discrete,
  ite,
}
use mini_ocs_nos.Base.Text.{Text}
use mini_ocs_nos.Base.TextMap.{TextMap, erase, IsSorted, find-Above}
use mini_ocs_nos.Base.TextMap.Laws.{AllEntries}
use mini_ocs_nos.Base.TextMap.Size.{erase_absent}
use mini_ocs_nos.DeviceTypes.{AppliedConnection, FaultResult}
use mini_ocs_nos.Device.State.{SimulatedOcsDevice, port_at}
use mini_ocs_nos.Device.Cells.{port_at-set_self, port_at-set_ne}
use mini_ocs_nos.Device.Routes.{route, back_route, Apart, InMatrix}
use mini_ocs_nos.Device.Invariant.{IsConsistent}
use mini_ocs_nos.Device.Faults.{drop_first}

-- The first connection of the map goes, and its two cells are emptied.
Apart-route :
    (c : AppliedConnection) (m : TextMap AppliedConnection)
    → AllEntries (λ j e. Apart c e) m
    → (route c.input_port m ≡ none) × (back_route c.output_port m ≡ none)
unfolding route back_route
Apart-route c [] a = (refl, refl)
Apart-route c ((j, e) ∷ m) a = ground (arith, Apart-route c m a.1)

cell_emptied :
    (table : List (Option ℕ)) (q p : ℕ) (old v rest : Option ℕ)
    → port_at table q ≡ some old
    → port_at table p ≡ some (ite (ℕ_discrete q p) v rest)
    → (q ≡ p → rest ≡ none)
    → port_at (set table (q - 1) none) p ≡ some rest
cell_emptied table q p old v rest h k n = ground (
  arith,
  port_at-set_self table q old none h,
  port_at-set_ne table q p old none h,
  ap (port_at (set table (q - 1) none)),
  n,
)

erase_first :
    (id : Text) (c : AppliedConnection) (m : TextMap AppliedConnection)
    → IsSorted ((id, c) ∷ m)
    → erase id ((id, c) ∷ m) ≡ m
unfolding erase
erase_first id c m s = ground (arith, erase_absent id m (find-Above id m s.0))

-- The switch without the first of its connections.
abbrev without_first : SimulatedOcsDevice → Text → AppliedConnection → SimulatedOcsDevice
without_first d id c = record d {
  input_to_output = set d.input_to_output (c.input_port - 1) none;
  output_to_input = set d.output_to_input (c.output_port - 1) none;
  connections = erase id d.connections;
}

drop_first-eq :
    (d d' : SimulatedOcsDevice) (id : Text) (c : AppliedConnection) (m : TextMap AppliedConnection)
    (r : FaultResult)
    → drop_first d ((id, c) ∷ m) ≡ some (r, d')
    → d' ≡ without_first d id c
unfolding drop_first Option.bind
drop_first-eq d d' id c m r h = ground arith

module _ (d : SimulatedOcsDevice) (v : IsConsistent d) (id : Text) (c : AppliedConnection)
    (m : TextMap AppliedConnection) (first : d.connections ≡ (id, c) ∷ m) where
  rest : erase id d.connections ≡ m
  rest = ap (erase id) first ∙ erase_first id c m (rw first at v.sorted)

  alone : (route c.input_port m ≡ none) × (back_route c.output_port m ≡ none)
  alone = Apart-route c m (rw first at v.exclusive).0

  without_first-IsConsistent : IsConsistent (without_first d id c)
  unfolding route back_route
  without_first-IsConsistent = record {
    inputs = v.inputs;
    outputs = v.outputs;
    input_ports = v.input_ports;
    output_ports = v.output_ports;
    sorted = rw rest (rw first at v.sorted).1;
    entries = rw rest (rw first at v.entries).1;
    exclusive = rw rest (rw first at v.exclusive).1;
    input_length = length-set d.input_to_output (c.input_port - 1) none ∙ v.input_length;
    output_length = length-set d.output_to_input (c.output_port - 1) none ∙ v.output_length;
    input_cells = λ p h k. rw rest (
        cell_emptied d.input_to_output c.input_port p _ (some c.output_port) (route p m)
          (v.input_cells c.input_port head.0 head.1)
          (v.input_cells p h k ∙ ap (λ (n : TextMap AppliedConnection). some (route p n)) first)
          (λ e. rw (← e) alone.0));
    output_cells = λ p h k. rw rest (
        cell_emptied d.output_to_input c.output_port p _ (some c.input_port) (back_route p m)
          (v.output_cells c.output_port head.2 head.3)
          (v.output_cells p h k
            ∙ ap (λ (n : TextMap AppliedConnection). some (back_route p n)) first)
          (λ e. rw (← e) alone.1));
  }
    where
      head : InMatrix d.info.input_port_count d.info.output_port_count id c
      head = (rw first at v.entries).0.2

pub drop_first-IsConsistent :
    (d d' : SimulatedOcsDevice) (m : TextMap AppliedConnection) (r : FaultResult)
    → d.connections ≡ m
    → IsConsistent d
    → drop_first d m ≡ some (r, d')
    → IsConsistent d'
drop_first-IsConsistent d d' [] r e v h =
    let same : d ≡ d' = unfold drop_first in ground arith in rw same at v
drop_first-IsConsistent d d' ((id, c) ∷ m) r e v h =
    rw (drop_first-eq d d' id c m r h) (without_first-IsConsistent d v id c m e)

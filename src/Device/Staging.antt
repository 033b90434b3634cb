-- ===== src/Device/Staging.antt =====
-- The loop of cpp/src/simulated_ocs_device.cpp that builds candidate_connections.
use mini_ocs_nos.Base.{
  ℕ, ◌≤◌, ◌≡◌, ◌≢◌, refl, ap, ite, true, Option, none, some, List, [], ◌∷◌, arith, ◌⊎◌, inl, inr,
  Option-cases,
}
use mini_ocs_nos.Base.Text.{Text, text_discrete}
use mini_ocs_nos.Base.TextMap.{
  TextMap, find, insert_or_assign, erase, IsSorted, insert_or_assign-IsSorted, erase-IsSorted,
  find-insert_or_assign, find-erase,
}
use mini_ocs_nos.Base.TextMap.Laws.{AllEntries, insert_or_assign-AllEntries, erase-AllEntries}
use mini_ocs_nos.Errors.{Error, is_ok}
use mini_ocs_nos.DeviceTypes.{
  ConnectionCommand, ConnectionOperation, upsert, remove, AppliedConnection, PortDirection, input,
  output, PortState, PortOperStatus,
}
use mini_ocs_nos.Device.State.{
  SimulatedOcsDevice, port_at, ports, port_count, validate_port_available,
}
use mini_ocs_nos.Device.Apply.{
  accepted, stage_command, stage, applied, require_available, stage_operation, >>=-accepted,
}
use mini_ocs_nos.Device.Routes.{InMatrix}

-- The port is in the matrix, enabled and up.
abbrev pub Available : SimulatedOcsDevice → PortDirection → ℕ → Type 0
Available d direction p =
    (1 ≤ p)
    × (p ≤ port_count d direction)
    × (port : PortState) × (port_at (ports d direction) p ≡ some port)
    × (port.admin_enabled ≡ true)
    × (port.oper_status ≡ PortOperStatus.up)

-- What the loop does with a command that it accepts.
abbrev pub Stages :
    SimulatedOcsDevice
    → ConnectionCommand
    → TextMap AppliedConnection
    → TextMap AppliedConnection
    → Type 0
Stages d c m m' =
    ((c.operation ≡ remove) × (m' ≡ erase c.id m))
    ⊎ ((c.operation ≡ upsert)
        × (m' ≡ insert_or_assign c.id (applied c) m)
        × Available d input c.input_port
        × Available d output c.output_port)

Available-intro :
    (d : SimulatedOcsDevice) (direction : PortDirection) (p : ℕ) (e : Error)
    → validate_port_available d direction p ≡ some e
    → is_ok e ≡ true
    → Available d direction p
unfolding validate_port_available
Available-intro d direction p e q k = elim (Option-cases (port_at (ports d direction) p)) [
  | inl missing ↦ ground arith
  | inr (port, there) ↦ (ground arith, ground arith, port, there, ground arith, ground arith)
]

require_available-Available :
    (d : SimulatedOcsDevice) (direction : PortDirection) (p : ℕ)
    → require_available d direction p ≡ accepted tt
    → Available d direction p
unfolding require_available
require_available-Available d direction p h =
    elim (Option-cases (validate_port_available d direction p)) [
      | inl missing ↦ ground arith
      | inr (e, there) ↦ Available-intro d direction p e there (ground arith)
    ]

stage_upsert :
    (d : SimulatedOcsDevice) (c : ConnectionCommand) (m m' : TextMap AppliedConnection)
    → stage_operation d upsert c m ≡ accepted m'
    → (m' ≡ insert_or_assign c.id (applied c) m)
      × (require_available d input c.input_port ≡ accepted tt)
      × (require_available d output c.output_port ≡ accepted tt)
unfolding stage_operation
stage_upsert d c m m' h = ground arith

stage_operation-Stages :
    (d : SimulatedOcsDevice) (o : ConnectionOperation) (c : ConnectionCommand)
    (m m' : TextMap AppliedConnection)
    → c.operation ≡ o
    → stage_operation d o c m ≡ accepted m'
    → Stages d c m m'
unfolding stage_operation
stage_operation-Stages d remove c m m' e h = inl (e, ground arith)
stage_operation-Stages d upsert c m m' e h =
    let (w, x, y) = stage_upsert d c m m' h in
    inr (
      e,
      w,
      require_available-Available d input c.input_port x,
      require_available-Available d output c.output_port y,
    )

pub stage_command-Stages :
    (d : SimulatedOcsDevice) (c : ConnectionCommand) (m m' : TextMap AppliedConnection)
    → stage_command d c m ≡ accepted m'
    → (c.id ≢ []) × Stages d c m m'
unfolding stage_command
stage_command-Stages d c m m' h =
    (λ e. ground arith, stage_operation-Stages d c.operation c m m' refl (ground arith))

-- An entry under its own nonempty id, with ports in the matrix.
abbrev pub IsEntry : ℕ → ℕ → Text → AppliedConnection → Type 0
IsEntry ins outs k c = (k ≡ c.id) × (k ≢ []) × InMatrix ins outs k c

abbrev pub Entries : SimulatedOcsDevice → TextMap AppliedConnection → Type 0
Entries d m = AllEntries (IsEntry d.info.input_port_count d.info.output_port_count) m

stage_command-Entries :
    (d : SimulatedOcsDevice) (c : ConnectionCommand) (m m' : TextMap AppliedConnection)
    → stage_command d c m ≡ accepted m'
    → Entries d m
    → IsSorted m
    → Entries d m' × IsSorted m'
stage_command-Entries d c m m' h a s =
    let (n, st) = stage_command-Stages d c m m' h in
    elim st [
      | inl (o, e) ↦ rw e (erase-AllEntries _ c.id m a, erase-IsSorted c.id m s)
      | inr (o, e, x, y) ↦ rw e (
        insert_or_assign-AllEntries _ c.id (applied c) m (refl, n, (x.0, x.1, y.0, y.1)) a,
        insert_or_assign-IsSorted c.id (applied c) m s,
      )
    ]

stage-cons :
    (d : SimulatedOcsDevice) (c : ConnectionCommand) (cs : List ConnectionCommand)
    (m m' : TextMap AppliedConnection)
    → stage d (c ∷ cs) m ≡ accepted m'
    → (m'' : TextMap AppliedConnection) × (stage_command d c m ≡ accepted m'')
      × (stage d cs m'' ≡ accepted m')
unfolding stage
stage-cons d c cs m m' h = >>=-accepted (stage_command d c m) (stage d cs) h

-- The loop keeps the candidate an ordered map of entries that name ports of the matrix.
pub stage-Entries :
    (d : SimulatedOcsDevice) (cs : List ConnectionCommand) (m m' : TextMap AppliedConnection)
    → stage d cs m ≡ accepted m'
    → Entries d m
    → IsSorted m
    → Entries d m' × IsSorted m'
unfolding stage
stage-Entries d [] m m' h a s = let e : m ≡ m' = ground arith in rw (← e) (a, s)
stage-Entries d (c ∷ cs) m m' h a s =
    let (m'', x, y) = stage-cons d c cs m m' h in
    let (a', s') = stage_command-Entries d c m m'' x a s in stage-Entries d cs m'' m' y a' s'

-- The last command of a batch for an id.
unfoldable pub last_for : Text → List ConnectionCommand → Option ConnectionCommand
last_for id [] = none
last_for id (c ∷ cs) = elim (last_for id cs) [
  | some later ↦ some later
  | none ↦ ite (text_discrete c.id id) (some c) none
]

-- The connection that a command asks for, over the one that is there.
abbrev pub asked : Option ConnectionCommand → Option AppliedConnection → Option AppliedConnection
asked none old = old
asked (some c) old = elim c.operation [ remove ↦ none | upsert ↦ some (applied c) ]

stage_command-find :
    (d : SimulatedOcsDevice) (c : ConnectionCommand) (m m' : TextMap AppliedConnection) (id : Text)
    → stage_command d c m ≡ accepted m'
    → find id m' ≡ ite (text_discrete c.id id) (asked (some c) (find id m)) (find id m)
stage_command-find d c m m' id h =
    let (n, st) = stage_command-Stages d c m m' h in
    elim st [
      | inl (o, e) ↦ rw (e, find-erase c.id id m, o)
      | inr (o, e, x, y) ↦ rw (e, find-insert_or_assign c.id id (applied c) m, o)
    ]

-- The candidate has, for each id, what the last command for it asks for, or what was there.
pub find-stage :
    (d : SimulatedOcsDevice) (cs : List ConnectionCommand) (m m' : TextMap AppliedConnection)
    (id : Text)
    → stage d cs m ≡ accepted m'
    → find id m' ≡ asked (last_for id cs) (find id m)
unfolding stage last_for
find-stage d [] m m' id h = let e : m' ≡ m = ground arith in ap (find id) e
find-stage d (c ∷ cs) m m' id h =
    let (m'', x, y) = stage-cons d c cs m m' h in
    ground (arith, stage_command-find d c m m'' id x, find-stage d cs m'' m' id y)

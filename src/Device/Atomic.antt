-- ===== src/Device/Atomic.antt =====
-- applyConnections of cpp/src/simulated_ocs_device.cpp: consistency, no exception, all or nothing.
use mini_ocs_nos.Base.{
  ◌≡◌, refl, true, false, none, some, List, arith, ◌⊎◌, inl, inr, Option-cases, Bool-cases, ◌&&◌,
  not,
}
use mini_ocs_nos.Base.Text.{Text}
use mini_ocs_nos.Base.TextMap.{find}
use mini_ocs_nos.Errors.{Error}
use mini_ocs_nos.DeviceTypes.{ConnectionCommand, ApplyOptions, ApplyResult, apply_ok}
use mini_ocs_nos.Device.State.{SimulatedOcsDevice}
use mini_ocs_nos.Device.Staging.{last_for, asked, find-stage}
use mini_ocs_nos.Device.Refusals.{candidate-refused}
use mini_ocs_nos.Device.Invariant.{IsConsistent, IsSound, candidate-IsSound, candidate-parts}
use mini_ocs_nos.Device.Apply.{
  Staged, accepted, refused, out_of_range, Candidate, candidate, commit, attempt, make_room, finish,
  cached_result, apply_connections, any_stale, changed, record_versions,
}

Staged-cases {ℓ} :
    {A : Type ℓ} (s : Staged A)
    → ((a : A) × (s ≡ accepted a)) ⊎ ((e : Error) × (s ≡ refused e)) ⊎ (s ≡ out_of_range)
Staged-cases (accepted a) = inl (a, refl)
Staged-cases (refused e) = inr (inl (e, refl))
Staged-cases out_of_range = inr (inr refl)

-- The part of the state that consistency speaks of.
pub record SameSwitch (d d' : SimulatedOcsDevice) : Type 0 where
  pub info : d'.info ≡ d.info
  pub connections : d'.connections ≡ d.connections
  pub last_versions : d'.last_versions ≡ d.last_versions
  pub input_to_output : d'.input_to_output ≡ d.input_to_output
  pub output_to_input : d'.output_to_input ≡ d.output_to_input
  pub input_ports : d'.input_ports ≡ d.input_ports
  pub output_ports : d'.output_ports ≡ d.output_ports

pub SameSwitch-IsConsistent :
    {d d' : SimulatedOcsDevice} → SameSwitch d d' → IsConsistent d → IsConsistent d'
SameSwitch-IsConsistent {d} {d'} s v = record {
  inputs = rw s.info v.inputs;
  outputs = rw s.info v.outputs;
  input_ports = rw (s.info, s.input_ports) v.input_ports;
  output_ports = rw (s.info, s.output_ports) v.output_ports;
  sorted = rw s.connections v.sorted;
  entries = rw (s.info, s.connections) v.entries;
  exclusive = rw s.connections v.exclusive;
  input_length = rw (s.info, s.input_to_output) v.input_length;
  output_length = rw (s.info, s.output_to_input) v.output_length;
  input_cells = rw (s.info, s.connections, s.input_to_output) v.input_cells;
  output_cells = rw (s.info, s.connections, s.output_to_input) v.output_cells;
}

-- The switch after an apply that went through with the candidate.
pub record Switched (d : SimulatedOcsDevice) (cs : List ConnectionCommand) (c : Candidate)
    (d' : SimulatedOcsDevice) : Type 0 where
  pub info : d'.info ≡ d.info
  pub connections : d'.connections ≡ c.connections
  pub last_versions : d'.last_versions ≡ record_versions cs d.last_versions
  pub input_to_output : d'.input_to_output ≡ c.tables.input_to_output
  pub output_to_input : d'.output_to_input ≡ c.tables.output_to_input
  pub input_ports : d'.input_ports ≡ d.input_ports
  pub output_ports : d'.output_ports ≡ d.output_ports

abbrev pub Accepted :
    SimulatedOcsDevice → List ConnectionCommand → ApplyResult → SimulatedOcsDevice → Type 0
Accepted d cs r d' =
    (c : Candidate) × (candidate d cs ≡ accepted c)
    × (any_stale d.last_versions cs ≡ false)
    × Switched d cs c d'
    × (r.connections ≡ changed cs c.connections)

-- Success switches to the candidate; an injected failure changes a flag alone.
commit_cases :
    (d : SimulatedOcsDevice) (cs : List ConnectionCommand) (c : Candidate)
    → (SameSwitch d (commit d cs c).1 × (apply_ok (commit d cs c).0 ≡ false))
      ⊎ (Switched d cs c (commit d cs c).1
          × ((commit d cs c).0.connections ≡ changed cs c.connections)
          × (apply_ok (commit d cs c).0 ≡ true))
unfolding commit
commit_cases d cs c = ground arith

attempt-commit :
    (d : SimulatedOcsDevice) (cs : List ConnectionCommand) (o : ApplyOptions) (r : ApplyResult)
    (d' : SimulatedOcsDevice)
    → attempt d cs o ≡ some (r, d')
    → ((d' ≡ d) × (apply_ok r ≡ false))
      ⊎ ((c : Candidate) × (candidate d cs ≡ accepted c)
          × (any_stale d.last_versions cs ≡ false)
          × (commit d cs c ≡ (r, d')))
unfolding attempt
attempt-commit d cs o r d' h = elim (Bool-cases (o.atomic && not (any_stale d.last_versions cs))) [
  | inl checked ↦ elim (Staged-cases (candidate d cs)) [
    | inl (c, e) ↦ inr (c, e, ground arith, ground arith)
    | inr (inl (x, e)) ↦ inl (ground arith, ground (arith, candidate-refused d cs x e))
    | inr (inr e) ↦ ground arith
  ]
  | inr unchecked ↦ inl (ground arith, ground arith)
]

attempt_cases :
    (d : SimulatedOcsDevice) (cs : List ConnectionCommand) (o : ApplyOptions) (r : ApplyResult)
    (d' : SimulatedOcsDevice)
    → attempt d cs o ≡ some (r, d')
    → (SameSwitch d d' × (apply_ok r ≡ false)) ⊎ (Accepted d cs r d' × (apply_ok r ≡ true))
attempt_cases d cs o r d' h = elim (attempt-commit d cs o r d' h) [
  | inl (e, f) ↦ inl (ground arith, f)
  | inr (c, e, f, g) ↦ elim (commit_cases d cs c) [
    | inl (s, x) ↦ inl (rw g at s, rw g at x)
    | inr (s, x, y) ↦ inr ((c, e, f, rw g at s, rw g at x), rw g at y)
  ]
]

pub finish-SameSwitch :
    (op : Text) (r : ApplyResult) (d : SimulatedOcsDevice)
    → SameSwitch d (finish op (r, d)).1 × ((finish op (r, d)).0 ≡ r)
unfolding finish make_room
finish-SameSwitch op r d = ground arith

SameSwitch-trans : {d e f : SimulatedOcsDevice} → SameSwitch d e → SameSwitch e f → SameSwitch d f
SameSwitch-trans p q = ground arith

Switched-SameSwitch :
    {d e f : SimulatedOcsDevice} {cs : List ConnectionCommand} {c : Candidate}
    → Switched d cs c e
    → SameSwitch e f
    → Switched d cs c f
Switched-SameSwitch p q = ground arith

apply_connections-finish :
    (d : SimulatedOcsDevice) (cs : List ConnectionCommand) (o : ApplyOptions) (r : ApplyResult)
    (d' : SimulatedOcsDevice)
    → apply_connections d cs o ≡ some (r, d')
    → cached_result d o.operation_id ≡ none
    → (d₀ : SimulatedOcsDevice) × (attempt d cs o ≡ some (r, d₀)) × SameSwitch d₀ d'
unfolding apply_connections
apply_connections-finish d cs o r d' h e = elim (Option-cases (attempt d cs o)) [
  | inl f ↦ ground arith
  | inr ((r₀, d₀), f) ↦
      let (s, x) = finish-SameSwitch o.operation_id r₀ d₀ in
      let g : finish o.operation_id (r₀, d₀) ≡ (r, d') = ground arith in
      (d₀, ground arith, rw g at s)
]

-- How an apply ends: with the switch as it was and either an error or a cached result, or with
-- the switch on the accepted candidate and success.
pub apply_connections_cases :
    (d : SimulatedOcsDevice) (cs : List ConnectionCommand) (o : ApplyOptions) (r : ApplyResult)
    (d' : SimulatedOcsDevice)
    → apply_connections d cs o ≡ some (r, d')
    → (SameSwitch d d' × ((apply_ok r ≡ false) ⊎ (cached_result d o.operation_id ≡ some r)))
      ⊎ (Accepted d cs r d' × (apply_ok r ≡ true) × (cached_result d o.operation_id ≡ none))
unfolding apply_connections
apply_connections_cases d cs o r d' h = elim (Option-cases (cached_result d o.operation_id)) [
  | inr (x, e) ↦ inl (ground arith, inr (ground arith))
  | inl e ↦
      let (d₀, f, s) = apply_connections-finish d cs o r d' h e in
      elim (attempt_cases d cs o r d₀ f) [
        | inl (x, y) ↦ inl (SameSwitch-trans x s, inl y)
        | inr ((c, x, y, z, w), k) ↦ inr ((c, x, y, Switched-SameSwitch z s, w), k, e)
      ]
]

Switched-IsConsistent :
    {d d' : SimulatedOcsDevice} {cs : List ConnectionCommand} {c : Candidate}
    → Switched d cs c d'
    → IsSound d c
    → IsConsistent d
    → IsConsistent d'
Switched-IsConsistent s a v = record {
  inputs = rw s.info v.inputs;
  outputs = rw s.info v.outputs;
  input_ports = rw (s.info, s.input_ports) v.input_ports;
  output_ports = rw (s.info, s.output_ports) v.output_ports;
  sorted = rw s.connections a.sorted;
  entries = rw (s.info, s.connections) a.entries;
  exclusive = rw s.connections a.exclusive;
  input_length = rw (s.info, s.input_to_output) a.input_length;
  output_length = rw (s.info, s.output_to_input) a.output_length;
  input_cells = rw (s.info, s.connections, s.input_to_output) a.input_cells;
  output_cells = rw (s.info, s.connections, s.output_to_input) a.output_cells;
}

-- However an apply ends, a consistent switch stays consistent: its connections share no port and
-- its cross-connect tables are theirs.
pub apply_connections-IsConsistent :
    (d : SimulatedOcsDevice) (cs : List ConnectionCommand) (o : ApplyOptions) (r : ApplyResult)
    (d' : SimulatedOcsDevice)
    → IsConsistent d
    → apply_connections d cs o ≡ some (r, d')
    → IsConsistent d'
apply_connections-IsConsistent d cs o r d' v h = elim (apply_connections_cases d cs o r d' h) [
  | inl (s, x) ↦ SameSwitch-IsConsistent s v
  | inr ((c, e, n, s, k), x, y) ↦ Switched-IsConsistent s (candidate-IsSound d cs c v e) v
]

-- An apply that reports an error leaves connections, versions, cross-connect tables and ports as
-- they were.
pub apply_connections_all_or_nothing :
    (d : SimulatedOcsDevice) (cs : List ConnectionCommand) (o : ApplyOptions) (r : ApplyResult)
    (d' : SimulatedOcsDevice)
    → apply_connections d cs o ≡ some (r, d')
    → apply_ok r ≡ false
    → SameSwitch d d'
apply_connections_all_or_nothing d cs o r d' h f = elim (apply_connections_cases d cs o r d' h) [
  | inl (s, x) ↦ s
  | inr (a, x, y) ↦ absurd (cc)
]

-- An apply that succeeds and whose operation id has no cached result: for each id, the switch then
-- has what the last command for the id asks for, and where the batch has no command for it, what
-- it had.
pub find-apply_connections :
    (d : SimulatedOcsDevice) (cs : List ConnectionCommand) (o : ApplyOptions) (r : ApplyResult)
    (d' : SimulatedOcsDevice) (id : Text)
    → apply_connections d cs o ≡ some (r, d')
    → apply_ok r ≡ true
    → cached_result d o.operation_id ≡ none
    → find id d'.connections ≡ asked (last_for id cs) (find id d.connections)
find-apply_connections d cs o r d' id h f n = elim (apply_connections_cases d cs o r d' h) [
  | inl (s, inl x) ↦ absurd (cc)
  | inl (s, inr x) ↦ absurd (cc)
  | inr ((c, e, k, s, w), x, y) ↦
      rw s.connections (find-stage d cs d.connections c.connections id (candidate-parts d cs c e).0)
]

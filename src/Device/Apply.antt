-- ===== src/Device/Apply.antt =====
-- SimulatedOcsDevice::applyConnections (cpp/src/simulated_ocs_device.cpp).
use mathlib.Core.Option
use mini_ocs_nos.Base.{
  ℕ, ◌-◌, ◌≡◌, refl, Bool, true, false, not, Option, none, some, List, [], ◌∷◌, ◌++◌, leb, ltb,
  ◌==◌, if◌then◌else◌, set, length, replicate, ◌⊎◌, inl, inr, arith,
}
use mini_ocs_nos.Base.Text.{Text, codes}
use mini_ocs_nos.Base.TextMap.{TextMap, find, insert_or_assign, erase}
use mini_ocs_nos.Errors.{ErrorCode, Error, is_ok, success}
use mini_ocs_nos.DeviceTypes.{
  ConnectionCommand, ConnectionOperation, upsert, remove, AppliedConnection, PortDirection, input,
  output, ApplyOptions, ApplyResult,
}
use mini_ocs_nos.Device.State.{
  SimulatedOcsDevice, make_error, max_cached_apply_results, port_at, validate_port_available,
}

-- A stage of the apply: its value, the error that the apply reports, or std::out_of_range.
pub data Staged {ℓ} (A : Type ℓ) : Type ℓ where
  accepted : A → Staged A
  refused : Error → Staged A
  out_of_range : Staged A

infixl 5 ◌>>=◌ ◌>>◌
abbrev pub ◌>>=◌ {ℓ κ} : {A : Type ℓ} {B : Type κ} → Staged A → (A → Staged B) → Staged B
accepted a >>= f = f a
refused e >>= f = refused e
out_of_range >>= f = out_of_range

abbrev pub ◌>>◌ {ℓ} : {B : Type ℓ} → Staged (Unit {0}) → Staged B → Staged B
m >> k = m >>= λ _. k

-- The value of a bind that was accepted came from a first part that was accepted.
pub >>=-accepted {ℓ κ} :
    {A : Type ℓ} {B : Type κ} (m : Staged A) (f : A → Staged B) {b : B}
    → (m >>= f) ≡ accepted b
    → (a : A) × (m ≡ accepted a) × (f a ≡ accepted b)
>>=-accepted (accepted a) f h = (a, refl, h)
>>=-accepted (refused e) f h = cc
>>=-accepted out_of_range f h = cc

-- A bind that was refused was refused by one of its parts.
pub >>=-refused {ℓ κ} :
    {A : Type ℓ} {B : Type κ} (m : Staged A) (f : A → Staged B) {e : Error}
    → (m >>= f) ≡ refused e
    → (m ≡ refused e) ⊎ ((a : A) × (m ≡ accepted a) × (f a ≡ refused e))
>>=-refused (accepted a) f h = inr (a, refl, h)
>>=-refused (refused x) f h = inl (ground arith)
>>=-refused out_of_range f h = cc

abbrev pub is_empty : Text → Bool
is_empty [] = true
is_empty (c ∷ cs) = false

-- The version check of one command against the last version of its connection.
abbrev pub is_stale : Option ℕ → ℕ → Bool
is_stale none version = false
is_stale (some last) version = ltb version last

-- The loop over the commands that looks for a stale version; version 0 is not checked.
unfoldable pub any_stale : TextMap ℕ → List ConnectionCommand → Bool
any_stale versions [] = false
any_stale versions (c ∷ cs) =
    let rest = any_stale versions cs in
    if c.desired_version == 0
    then rest
    else if is_stale (find c.id versions) c.desired_version
    then true
    else rest

unfoldable pub require_available : SimulatedOcsDevice → PortDirection → ℕ → Staged (Unit {0})
require_available d direction id = elim (validate_port_available d direction id) [
  | none ↦ out_of_range
  | some error ↦ if is_ok error then accepted tt else refused error
]

abbrev pub applied : ConnectionCommand → AppliedConnection
applied c = record {
  id = c.id;
  input_port = c.input_port;
  output_port = c.output_port;
  applied_version = c.desired_version;
}

unfoldable pub stage_operation :
    SimulatedOcsDevice
    → ConnectionOperation
    → ConnectionCommand
    → TextMap AppliedConnection
    → Staged (TextMap AppliedConnection)
unfolding require_available
stage_operation d remove c m = accepted (erase c.id m)
stage_operation d upsert c m = do
  require_available d input c.input_port
  require_available d output c.output_port
  accepted (insert_or_assign c.id (applied c) m)

-- One round of the loop over the commands that builds candidate_connections.
unfoldable pub stage_command :
    SimulatedOcsDevice
    → ConnectionCommand
    → TextMap AppliedConnection
    → Staged (TextMap AppliedConnection)
unfolding stage_operation
stage_command d c m =
    if is_empty c.id
    then refused (make_error ErrorCode.invalid_argument (codes "connection id must not be empty"))
    else stage_operation d c.operation c m

unfoldable pub stage :
    SimulatedOcsDevice
    → List ConnectionCommand
    → TextMap AppliedConnection
    → Staged (TextMap AppliedConnection)
stage d [] m = accepted m
stage d (c ∷ cs) m = stage_command d c m >>= λ m'. stage d cs m'

pub record Tables : Type 0 where
  pub input_to_output : List (Option ℕ)
  pub output_to_input : List (Option ℕ)

-- table.at(port - 1).has_value(), refused with the code if it holds.
unfoldable pub require_free : List (Option ℕ) → ℕ → Error → Staged (Unit {0})
unfolding port_at
require_free table port error = elim (port_at table port) [
  | none ↦ out_of_range
  | some none ↦ accepted tt
  | some (some other) ↦ refused error
]

-- The loop that enters each candidate connection into the two cross-connect tables.
unfoldable pub cross_connect : TextMap AppliedConnection → Tables → Staged Tables
cross_connect [] t = accepted t
cross_connect ((id, c) ∷ m) t = do
  require_free t.input_to_output c.input_port
      (make_error ErrorCode.input_conflict (codes "input port is already connected"))
  require_free t.output_to_input c.output_port
      (make_error ErrorCode.output_conflict (codes "output port is already connected"))
  cross_connect m (record {
    input_to_output = set t.input_to_output (c.input_port - 1) (some c.output_port);
    output_to_input = set t.output_to_input (c.output_port - 1) (some c.input_port);
  })

pub record Candidate : Type 0 where
  pub connections : TextMap AppliedConnection
  pub tables : Tables

abbrev pub empty_tables : SimulatedOcsDevice → Tables
empty_tables d = record {
  input_to_output = replicate d.info.input_port_count none;
  output_to_input = replicate d.info.output_port_count none;
}

-- The stages that touch nothing but the candidate.
unfoldable pub candidate : SimulatedOcsDevice → List ConnectionCommand → Staged Candidate
candidate d commands = do
  m ← stage d commands d.connections
  t ← cross_connect m (empty_tables d)
  accepted (record { connections = m; tables = t })

-- The loop that records the versions of an apply that goes through.
unfoldable pub record_versions : List ConnectionCommand → TextMap ℕ → TextMap ℕ
record_versions [] versions = versions
record_versions (c ∷ cs) versions =
    record_versions cs (
      if c.desired_version == 0 then versions else insert_or_assign c.id c.desired_version versions)

-- The connections that an apply reports: for each command the one that now has its id.
unfoldable pub changed : List ConnectionCommand → TextMap AppliedConnection → List AppliedConnection
changed [] m = []
changed (c ∷ cs) m = elim (find c.id m) [
  | none ↦ changed cs m
  | some connection ↦ connection ∷ changed cs m
]

abbrev pub rejection : Error → ApplyResult
rejection error = record { error = error; connections = [] }

-- The injected faults, and the swap.
unfoldable pub commit :
    SimulatedOcsDevice → List ConnectionCommand → Candidate → ApplyResult × SimulatedOcsDevice
commit d commands c =
    if d.fail_next_apply
    then (
      rejection (make_error ErrorCode.apply_failed (codes "injected next-apply failure")),
      record d { fail_next_apply = false },
    )
    else if d.timeout_next_apply
    then (
      rejection (make_error ErrorCode.apply_timeout (codes "injected next-apply timeout")),
      record d { timeout_next_apply = false },
    )
    else (
      record { error = success; connections = changed commands c.connections },
      record d {
        connections = c.connections;
        input_to_output = c.tables.input_to_output;
        output_to_input = c.tables.output_to_input;
        last_versions = record_versions commands d.last_versions;
      },
    )

-- applyConnections without its cache; `none` is std::out_of_range.
unfoldable pub attempt :
    SimulatedOcsDevice
    → List ConnectionCommand
    → ApplyOptions
    → Option (ApplyResult × SimulatedOcsDevice)
attempt d commands options =
    if not options.atomic
    then some (
      rejection (make_error ErrorCode.unsupported (codes "non-atomic apply is not supported")),
      d,
    )
    else if any_stale d.last_versions commands
    then some
        (rejection (make_error ErrorCode.version_stale (codes "connection version is stale")), d)
    else elim (candidate d commands) [
      | out_of_range ↦ none
      | refused error ↦ some (rejection error, d)
      | accepted c ↦ some (commit d commands c)
    ]

-- The cache is full: the oldest result goes. (`front` of an empty queue is undefined in C++.)
abbrev pub evict : SimulatedOcsDevice → List Text → SimulatedOcsDevice
evict d [] = d
evict d (oldest ∷ order) = record d {
  apply_results = erase oldest d.apply_results;
  apply_result_order = order;
}

unfoldable pub make_room : SimulatedOcsDevice → SimulatedOcsDevice
make_room d =
    if leb max_cached_apply_results (length d.apply_results)
    then evict d d.apply_result_order
    else d

-- The lambda `finish`.
unfoldable pub finish : Text → ApplyResult × SimulatedOcsDevice → ApplyResult × SimulatedOcsDevice
finish operation_id (result, d) = if is_empty operation_id then (result, d) else (
  result,
  record (make_room d) {
    apply_results = insert_or_assign operation_id result (make_room d).apply_results;
    apply_result_order = (make_room d).apply_result_order ++ operation_id ∷ [];
  },
)

unfoldable pub cached_result : SimulatedOcsDevice → Text → Option ApplyResult
cached_result d operation_id =
    if is_empty operation_id then none else find operation_id d.apply_results

-- `none` is std::out_of_range.
unfoldable pub apply_connections :
    SimulatedOcsDevice
    → List ConnectionCommand
    → ApplyOptions
    → Option (ApplyResult × SimulatedOcsDevice)
apply_connections d commands options = elim (cached_result d options.operation_id) [
  | some result ↦ some (result, d)
  | none ↦ Option.map (finish options.operation_id) (attempt d commands options)
]

-- ===== src/Device/Versions.antt =====
-- The versions that applyConnections of cpp/src/simulated_ocs_device.cpp checks and records.
use mathlib.Core.List.{Memᴰ}
use mini_ocs_nos.Base.{
  ℕ, ◌≤◌, ◌<◌, ◌≡◌, ◌≢◌, ap, true, false, Option, none, some, List, [], ◌∷◌, arith, inl, inr,
  Bool-cases, All, ite, ◌==◌,
}
use mini_ocs_nos.Base.Text.{Text, codes, text_discrete}
use mini_ocs_nos.Base.TextMap.{TextMap, find, insert_or_assign, find-insert_or_assign}
use mini_ocs_nos.Errors.{ErrorCode}
use mini_ocs_nos.DeviceTypes.{ConnectionCommand, ApplyOptions, ApplyResult}
use mini_ocs_nos.Device.State.{SimulatedOcsDevice, make_error}
use mini_ocs_nos.Device.Apply.{
  attempt, finish, make_room, rejection, apply_connections, any_stale, record_versions,
  cached_result,
}
use mini_ocs_nos.Device.Atomic.{finish-SameSwitch, apply_connections_cases}

-- There is a version, and it is at least v.
abbrev pub AtLeast : ℕ → Option ℕ → Type 0
AtLeast v none = ⊥
AtLeast v (some w) = v ≤ w

-- Every versioned command for the id has a version of at least v.
abbrev NotBelow : ℕ → Text → ConnectionCommand → Type 0
NotBelow v id c = c.id ≡ id → c.desired_version ≢ 0 → v ≤ c.desired_version

any_stale-NotBelow :
    (versions : TextMap ℕ) (cs : List ConnectionCommand) (id : Text) (v : ℕ)
    → any_stale versions cs ≡ false
    → find id versions ≡ some v
    → All (NotBelow v id) cs
unfolding any_stale
any_stale-NotBelow versions [] id v h e = tt
any_stale-NotBelow versions (c ∷ cs) id v h e = (
  λ same versioned. ground (arith, ap (λ (x : Text). find x versions) same),
  any_stale-NotBelow versions cs id v (ground arith) e,
)

settled :
    (c : ConnectionCommand) (id : Text) (v : ℕ) (old : Option ℕ)
    → (c.desired_version == 0) ≡ false
    → NotBelow v id c
    → AtLeast v old
    → (t : Dec (c.id ≡ id)) → AtLeast v (ite t (some c.desired_version) old)
settled c id v old given h a (yes p) = h p (ground arith)
settled c id v old given h a (no n) = a

record_versions-AtLeast :
    (cs : List ConnectionCommand) (versions : TextMap ℕ) (id : Text) (v : ℕ)
    → All (NotBelow v id) cs
    → AtLeast v (find id versions)
    → AtLeast v (find id (record_versions cs versions))
unfolding record_versions
record_versions-AtLeast [] versions id v h a = a
record_versions-AtLeast (c ∷ cs) versions id v h a = elim (Bool-cases (c.desired_version == 0)) [
  | inl none_given ↦ rw none_given (record_versions-AtLeast cs versions id v h.1 a)
  | inr given ↦ rw given (
      record_versions-AtLeast cs (insert_or_assign c.id c.desired_version versions) id v h.1 (
        rw (find-insert_or_assign c.id id c.desired_version versions)
          (settled c id v (find id versions) given h.0 a (text_discrete c.id id))))
]

-- The recorded version of a connection never falls: after any apply it is at least what it was.
pub apply_connections-AtLeast :
    (d : SimulatedOcsDevice) (cs : List ConnectionCommand) (o : ApplyOptions) (r : ApplyResult)
    (d' : SimulatedOcsDevice) (id : Text) (v : ℕ)
    → apply_connections d cs o ≡ some (r, d')
    → find id d.last_versions ≡ some v
    → AtLeast v (find id d'.last_versions)
apply_connections-AtLeast d cs o r d' id v h e = elim (apply_connections_cases d cs o r d' h) [
  | inl (s, x) ↦ rw (s.last_versions, e) (omega arith)
  | inr ((c, x, n, s, w), y, z) ↦ rw s.last_versions (
      record_versions-AtLeast cs d.last_versions id v
        (any_stale-NotBelow d.last_versions cs id v n e) (rw e (omega arith)))
]

any_stale-Memᴰ :
    (versions : TextMap ℕ) (cs : List ConnectionCommand) (c : ConnectionCommand) (v : ℕ)
    → Memᴰ c cs
    → find c.id versions ≡ some v
    → c.desired_version ≢ 0
    → c.desired_version < v
    → any_stale versions cs ≡ true
unfolding any_stale
any_stale-Memᴰ versions [] c v m f n h = elim m [ ]
any_stale-Memᴰ versions (x ∷ cs) c v (Memᴰ.head e) f n h = ground (
  arith,
  ap (λ (y : ConnectionCommand). find y.id versions) e,
  ap (λ (y : ConnectionCommand). y.desired_version) e,
)
any_stale-Memᴰ versions (x ∷ cs) c v (Memᴰ.tail m) f n h =
    ground (arith, any_stale-Memᴰ versions cs c v m f n h)

-- The device but for its cache of results.
abbrev pub ChangesOnlyCache : SimulatedOcsDevice → SimulatedOcsDevice → Type 0
ChangesOnlyCache d d' =
    d' ≡ record d { apply_results = d'.apply_results; apply_result_order = d'.apply_result_order }

finish-ChangesOnlyCache :
    (op : Text) (r : ApplyResult) (d : SimulatedOcsDevice) → ChangesOnlyCache d (finish op (r, d)).1
unfolding finish make_room
finish-ChangesOnlyCache op r d = ground arith

-- An atomic apply without a cached result for its operation id, which holds a command with a
-- version other than 0 that is older than the recorded version of its connection, reports a
-- stale version. It changes no field of the device but the two of the cache: not the switch, not
-- its health, and not a fault that is injected for the next apply.
pub apply_connections_stale :
    (d : SimulatedOcsDevice) (cs : List ConnectionCommand) (o : ApplyOptions)
    (c : ConnectionCommand) (v : ℕ)
    → Memᴰ c cs
    → find c.id d.last_versions ≡ some v
    → c.desired_version ≢ 0
    → c.desired_version < v
    → o.atomic ≡ true
    → cached_result d o.operation_id ≡ none
    → (r : ApplyResult) × (d' : SimulatedOcsDevice) × (apply_connections d cs o ≡ some (r, d'))
      × (r.error.code ≡ ErrorCode.version_stale)
      × ChangesOnlyCache d d'
unfolding apply_connections attempt
apply_connections_stale d cs o c v m f n h a e =
    let stale = any_stale-Memᴰ d.last_versions cs c v m f n h in
    let message = make_error ErrorCode.version_stale (codes "connection version is stale") in
    let (s, x) = finish-SameSwitch o.operation_id (rejection message) d in
    let result = finish o.operation_id (rejection message, d) in
    (
      result.0,
      result.1,
      ground arith,
      ground arith,
      finish-ChangesOnlyCache o.operation_id (rejection message) d,
    )

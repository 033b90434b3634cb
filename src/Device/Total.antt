-- ===== src/Device/Total.antt =====
-- applyConnections of cpp/src/simulated_ocs_device.cpp throws no std::out_of_range.
use mini_ocs_nos.Base.{
  ℕ, ◌≡◌, ◌≢◌, refl, Option, none, some, List, [], ◌∷◌, arith, ◌⊎◌, inl, inr, Option-cases, length,
  length-replicate,
}
use mini_ocs_nos.Base.TextMap.{TextMap}
use mini_ocs_nos.Base.TextMap.Laws.{AllEntries-mono}
use mini_ocs_nos.DeviceTypes.{
  ConnectionCommand, ConnectionOperation, upsert, remove, AppliedConnection, PortDirection, input,
  output, ApplyOptions, ApplyResult,
}
use mini_ocs_nos.Device.State.{SimulatedOcsDevice, ports, port_count, validate_port_available}
use mini_ocs_nos.Device.Cells.{port_at-some}
use mini_ocs_nos.Device.Routes.{cross_connect-InMatrix}
use mini_ocs_nos.Device.Staging.{IsEntry, stage-Entries}
use mini_ocs_nos.Device.Invariant.{IsConsistent}
use mini_ocs_nos.Device.Apply.{
  Staged, accepted, refused, out_of_range, require_available, stage_operation, stage_command, stage,
  cross_connect, candidate, empty_tables, attempt, apply_connections, ◌>>=◌,
}

-- A bind is out of range only where one of its parts is.
>>=-out_of_range {ℓ κ} :
    {A : Type ℓ} {B : Type κ} (m : Staged A) (f : A → Staged B)
    → (m >>= f) ≡ out_of_range
    → (m ≡ out_of_range) ⊎ ((a : A) × (m ≡ accepted a) × (f a ≡ out_of_range))
>>=-out_of_range (accepted a) f h = inr (a, refl, h)
>>=-out_of_range (refused x) f h = cc
>>=-out_of_range out_of_range f h = inl refl

require_available-in_range :
    (d : SimulatedOcsDevice) (direction : PortDirection) (p : ℕ)
    → length (ports d direction) ≡ port_count d direction
    → require_available d direction p ≢ out_of_range
unfolding require_available validate_port_available
require_available-in_range d direction p e h = ground (arith, port_at-some (ports d direction) p)

module _ (d : SimulatedOcsDevice) (v : IsConsistent d) where
  stage_operation-in_range :
      (o : ConnectionOperation) (c : ConnectionCommand) (m : TextMap AppliedConnection)
      → stage_operation d o c m ≢ out_of_range
  unfolding stage_operation
  stage_operation-in_range remove c m h = cc
  stage_operation-in_range upsert c m h =
      elim (>>=-out_of_range (require_available d input c.input_port) _ h) [
        | inl x ↦ require_available-in_range d input c.input_port v.input_ports x
        | inr (u, x, y) ↦ elim (>>=-out_of_range (require_available d output c.output_port) _ y) [
          | inl z ↦ require_available-in_range d output c.output_port v.output_ports z
          | inr (w, z, k) ↦ cc
        ]
      ]

  stage-in_range :
      (cs : List ConnectionCommand) (m : TextMap AppliedConnection) → stage d cs m ≢ out_of_range
  unfolding stage stage_command
  stage-in_range [] m h = cc
  stage-in_range (c ∷ cs) m h = elim (>>=-out_of_range (stage_command d c m) _ h) [
    | inl x ↦ ground (arith, stage_operation-in_range c.operation c m)
    | inr (m', x, y) ↦ stage-in_range cs m' y
  ]

  candidate-in_range : (cs : List ConnectionCommand) → candidate d cs ≢ out_of_range
  unfolding candidate
  candidate-in_range cs h = elim (>>=-out_of_range (stage d cs d.connections) _ h) [
    | inl x ↦ stage-in_range cs d.connections x
    | inr (m, x, y) ↦ elim (>>=-out_of_range (cross_connect m (empty_tables d)) _ y) [
      | inr (t, z, w) ↦ cc
      | inl z ↦
          let (es, so) = stage-Entries d cs d.connections m x v.entries v.sorted in
          cross_connect-InMatrix m (empty_tables d)
            (rw
              (
                length-replicate {A = Option ℕ} d.info.input_port_count none,
                length-replicate {A = Option ℕ} d.info.output_port_count none,
              )
              (AllEntries-mono (IsEntry d.info.input_port_count d.info.output_port_count) _
                (λ k c e. e.2) m es))
            z
    ]
  ]

  apply_connections-in_range :
      (cs : List ConnectionCommand) (o : ApplyOptions) → apply_connections d cs o ≢ none
  unfolding apply_connections attempt
  apply_connections-in_range cs o h = ground (arith, candidate-in_range cs)

  -- On a consistent switch every apply returns a result; none ends by std::out_of_range.
  pub apply_connections-returns :
      (cs : List ConnectionCommand) (o : ApplyOptions)
      → (r : ApplyResult) × (d' : SimulatedOcsDevice) × (apply_connections d cs o ≡ some (r, d'))
  apply_connections-returns cs o = elim (Option-cases (apply_connections d cs o)) [
    | inl e ↦ absurd (apply_connections-in_range cs o e)
    | inr ((r, d'), e) ↦ (r, d', e)
  ]

-- ===== src/Device/Refusals.antt =====
-- An apply of cpp/src/simulated_ocs_device.cpp that a stage refuses reports an error, never success.
use mini_ocs_nos.Base.{ℕ, ◌≡◌, false, List, [], ◌∷◌, arith, inl, inr, Option-cases, Bool-cases}
use mini_ocs_nos.Base.TextMap.{TextMap}
use mini_ocs_nos.Errors.{Error, is_ok}
use mini_ocs_nos.DeviceTypes.{
  ConnectionCommand, ConnectionOperation, upsert, remove, AppliedConnection, PortDirection, input,
  output,
}
use mini_ocs_nos.Device.State.{SimulatedOcsDevice, validate_port_available}
use mini_ocs_nos.Device.Routes.{write}
use mini_ocs_nos.Device.Apply.{
  refused, >>=-refused, require_available, stage_operation, stage_command, stage, Tables,
  require_free, cross_connect, candidate, empty_tables,
}

require_available-refused :
    (d : SimulatedOcsDevice) (direction : PortDirection) (p : ℕ) (e : Error)
    → require_available d direction p ≡ refused e
    → is_ok e ≡ false
unfolding require_available
require_available-refused d direction p e h =
    elim (Option-cases (validate_port_available d direction p)) [
      | inl missing ↦ ground arith
      | inr (x, there) ↦ elim (Bool-cases (is_ok x)) [
        | inl good ↦ ground arith
        | inr bad ↦ ground arith
      ]
    ]

stage_operation-refused :
    (d : SimulatedOcsDevice) (o : ConnectionOperation) (c : ConnectionCommand)
    (m : TextMap AppliedConnection) (e : Error)
    → stage_operation d o c m ≡ refused e
    → is_ok e ≡ false
unfolding stage_operation
stage_operation-refused d remove c m e h = cc
stage_operation-refused d upsert c m e h =
    elim (>>=-refused (require_available d input c.input_port) _ h) [
      | inl x ↦ require_available-refused d input c.input_port e x
      | inr (u, x, y) ↦ elim (>>=-refused (require_available d output c.output_port) _ y) [
        | inl z ↦ require_available-refused d output c.output_port e z
        | inr (w, z, k) ↦ cc
      ]
    ]

stage-refused :
    (d : SimulatedOcsDevice) (cs : List ConnectionCommand) (m : TextMap AppliedConnection)
    (e : Error)
    → stage d cs m ≡ refused e
    → is_ok e ≡ false
unfolding stage stage_command
stage-refused d [] m e h = cc
stage-refused d (c ∷ cs) m e h = elim (>>=-refused (stage_command d c m) _ h) [
  | inl x ↦ ground (arith, stage_operation-refused d c.operation c m e)
  | inr (m', x, y) ↦ stage-refused d cs m' e y
]

cross_connect-refused :
    (m : TextMap AppliedConnection) (t : Tables) (e : Error)
    → cross_connect m t ≡ refused e
    → is_ok e ≡ false
unfolding cross_connect require_free
cross_connect-refused [] t e h = cc
cross_connect-refused ((k, c) ∷ m) t e h = ground (arith, cross_connect-refused m (write t c) e)

pub candidate-refused :
    (d : SimulatedOcsDevice) (cs : List ConnectionCommand) (e : Error)
    → candidate d cs ≡ refused e
    → is_ok e ≡ false
unfolding candidate
candidate-refused d cs e h = elim (>>=-refused (stage d cs d.connections) _ h) [
  | inl x ↦ stage-refused d cs d.connections e x
  | inr (m, x, y) ↦ elim (>>=-refused (cross_connect m (empty_tables d)) _ y) [
    | inl z ↦ cross_connect-refused m (empty_tables d) e z
    | inr (t, z, w) ↦ cc
  ]
]

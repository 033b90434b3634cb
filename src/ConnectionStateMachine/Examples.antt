-- ===== src/ConnectionStateMachine/Examples.antt =====
-- Instances for the status names and transitions of cpp/src/connection_state_machine.cpp.
use mini_ocs_nos.Base.{◌≡◌, ◌≢◌, ◌↔◌, refl}
use mini_ocs_nos.Base.Text.{codes}
use mini_ocs_nos.Base.Outcome.{returns}
use mini_ocs_nos.ConnectionStateMachine.{
  absent, pending_create, failed, active, drifted, reconciling, applying, to_string,
  connection_apply_status_from_string, can_transition,
}
use mini_ocs_nos.ConnectionStateMachine.Names.{connection_apply_status_from_string_iff}
use mini_ocs_nos.ConnectionStateMachine.Paths.{
  Reaches, ReachesWithout, Reaches-connected, active_needs_applying,
}

connection_apply_status_from_string_iff_example :
    (connection_apply_status_from_string (codes "ACTIVE") ≡ returns active)
    ↔ (codes "ACTIVE" ≡ to_string active)
connection_apply_status_from_string_iff_example =
    connection_apply_status_from_string_iff (codes "ACTIVE") active

Reaches-connected_example : Reaches drifted pending_create
Reaches-connected_example = Reaches-connected drifted pending_create

-- absent, pending create, failed: no apply was started.
rejected : ReachesWithout applying absent failed
unfolding can_transition
rejected =
    ReachesWithout.step {t = pending_create}
      (ReachesWithout.step {t = absent} ReachesWithout.here refl (λ e. cc)) refl (λ e. cc)

active_needs_applying_example : (failed ≢ active) × (failed ≢ drifted) × (failed ≢ reconciling)
active_needs_applying_example = active_needs_applying rejected

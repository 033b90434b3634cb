-- ===== src/Reconciler/Examples.antt =====
-- Instances for the plans of cpp/src/reconciler.cpp.
use mathlib.Core.Option
use mini_ocs_nos.Base.{ℕ, ◌≡◌, ◌↔◌, ◌++◌, refl, true, Option, none, some, List, [], ◌∷◌, arith}
use mini_ocs_nos.Base.Text.{Text, text_discrete, compare_text}
use mini_ocs_nos.Base.TextMap.{find, insert_or_assign, erase}
use mini_ocs_nos.Base.Sort.{sort_by, insert_by, adjacent_find, latest}
use mini_ocs_nos.Base.Distinct.{Distinct}
use mini_ocs_nos.Base.Outcome.{returns, throws, Exception}
use mini_ocs_nos.Errors.{success}
use mini_ocs_nos.DeviceTypes.{pos, ConnectionCommand, upsert, ApplyOptions, ApplyResult, DeviceInfo}
use mini_ocs_nos.Device.State.{SimulatedOcsDevice, validate_port_available}
use mini_ocs_nos.Device.Apply.{
  applied, rejection, cached_result, apply_connections, attempt, candidate, any_stale, stage,
  stage_command, cross_connect, commit, finish, make_room, record_versions, changed, require_free,
}
use mini_ocs_nos.Device.Faults.{get_connections}
use mini_ocs_nos.Device.Staging.{last_for}
use mini_ocs_nos.Device.Atomic.{apply_connections-IsConsistent}
use mini_ocs_nos.Device.Invariant.{IsConsistent}
use mini_ocs_nos.Device.Reset.{new, new-IsConsistent}
use mini_ocs_nos.Reconciler.{
  ReconciliationPlan, command_id, connection_id, removal, by_id, drift_of, forget, compare_desired,
  removals, unexpected_drifts, plan_of, build_reconciliation_plan,
}
use mini_ocs_nos.Reconciler.Plan.{last_for-build_reconciliation_plan}
use mini_ocs_nos.Reconciler.Drifts.{build_reconciliation_plan-converged}
use mini_ocs_nos.Reconciler.Converges.{reconcile-reaches_desired, reconcile-converges}
use mini_ocs_nos.Reconciler.Refusal.{build_reconciliation_plan_iff}

abbrev info : DeviceInfo
info = record {
  name = [];
  input_port_count = 2;
  output_port_count = 2;
  model = [];
  serial_number = [];
  firmware_version = [];
  generation = 7;
}

abbrev connect : Text → ℕ → ℕ → ℕ → ConnectionCommand
connect id i o v = record {
  operation = upsert;
  id = id;
  input_port = i;
  output_port = o;
  desired_version = v;
}

abbrev a : Text
a = 97 ∷ []

abbrev b : Text
b = 98 ∷ []

abbrev options : ApplyOptions
options = record { atomic = true; timeout = pos 1000; operation_id = [] }

abbrev value :
    SimulatedOcsDevice
    → Option (ApplyResult × SimulatedOcsDevice)
    → ApplyResult × SimulatedOcsDevice
value d none = (rejection success, d)
value d (some x) = x

abbrev held : List ConnectionCommand
held = connect a 1 1 5 ∷ []

-- A switch that holds connection a, which nobody wants.
abbrev before : SimulatedOcsDevice
before = (value (new info) (apply_connections (new info) held options)).1

abbrev desired : List ConnectionCommand
desired = connect b 1 2 6 ∷ []

abbrev plan : ReconciliationPlan
plan = plan_of desired (get_connections before)

abbrev batch : List ConnectionCommand
batch = plan.full_snapshot.commands

abbrev after : ApplyResult × SimulatedOcsDevice
after = value before (apply_connections before batch options)

apply_run :
    SimulatedOcsDevice
    → List ConnectionCommand
    → ApplyOptions
    → Option (ApplyResult × SimulatedOcsDevice)
unfolding apply_connections attempt candidate cached_result any_stale stage stage_command
    cross_connect commit finish make_room find insert_or_assign erase record_versions changed
    text_discrete compare_text validate_port_available require_free plan_of sort_by insert_by
    compare_desired by_id drift_of forget removals unexpected_drifts get_connections adjacent_find
    build_reconciliation_plan last_for latest
apply_run = apply_connections

before_lem :
    apply_connections (new info) held options
    ≡ some (value (new info) (apply_connections (new info) held options))
unfolding apply_run
before_lem = refl

before-IsConsistent : IsConsistent before
before-IsConsistent =
    apply_connections-IsConsistent (new info) held options _ before
      (new-IsConsistent info (omega arith)) before_lem

planned : build_reconciliation_plan desired (get_connections before) ≡ returns plan
unfolding apply_run
planned = refl

batch_lem : batch ≡ removal a (applied (connect a 1 1 5)) ∷ connect b 1 2 6 ∷ []
unfolding apply_run
batch_lem = refl

after_lem : apply_connections before batch options ≡ some (after.0, after.1)
unfolding apply_run
after_lem = refl

reconcile-reaches_desired_example :
    find b after.1.connections ≡ Option.map applied (last_for b desired)
unfolding apply_run
reconcile-reaches_desired_example =
    reconcile-reaches_desired before desired plan options after.0 after.1 b before-IsConsistent
      (refl, tt) planned after_lem refl refl

reconcile-converges_example :
    (plan' : ReconciliationPlan) × (build_reconciliation_plan desired (get_connections after.1)
      ≡ returns plan')
    × (plan'.drifts ≡ [])
unfolding apply_run
reconcile-converges_example =
    reconcile-converges before desired plan options after.0 after.1 before-IsConsistent (refl, tt)
      planned after_lem refl refl

last_for-build_reconciliation_plan_example :
    last_for a plan.full_snapshot.commands ≡ some (removal a (applied (connect a 1 1 5)))
unfolding apply_run
last_for-build_reconciliation_plan_example =
    last_for-build_reconciliation_plan desired (get_connections before) plan a planned

build_reconciliation_plan-converged_example : (plan.drifts ≡ []) ↔ (
    (k : Text)
    → latest connection_id k (get_connections before) ≡ Option.map applied (last_for k desired))
build_reconciliation_plan-converged_example =
    build_reconciliation_plan-converged desired (get_connections before) plan planned

build_reconciliation_plan_iff_example :
    (((p : ReconciliationPlan) × (build_reconciliation_plan (held ++ held) [] ≡ returns p))
      ↔ (Distinct command_id (held ++ held) × Distinct connection_id []))
    × ((build_reconciliation_plan (held ++ held) [] ≡ throws Exception.invalid_argument)
        ↔ ¬ (Distinct command_id (held ++ held) × Distinct connection_id []))
build_reconciliation_plan_iff_example = build_reconciliation_plan_iff (held ++ held) []

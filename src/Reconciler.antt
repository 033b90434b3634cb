-- ===== src/Reconciler.antt =====
-- cpp/include/ocs/reconciler.hpp and cpp/src/reconciler.cpp: the plan that takes a switch from its
-- connections to the desired ones. DeviceCommandBatch is from cpp/include/ocs/device_command.hpp.
pub mod Plan
pub mod Drifts
pub mod Converges
pub mod Refusal
mod Examples
use mini_ocs_nos.Base.{
  ℕ, ◌≡◌, refl, max, Bool, true, false, not, ◌&&◌, ◌||◌, Option, none, some, List, [], ◌∷◌, ◌++◌,
  ◌==◌, if◌then◌else◌,
}
use mini_ocs_nos.Base.Text.{Text}
use mini_ocs_nos.Base.TextMap.{TextMap, find, insert_or_assign, erase}
use mini_ocs_nos.Base.Sort.{sort_by, adjacent_find}
use mini_ocs_nos.Base.Outcome.{Outcome, returns, throws, Exception}
use mini_ocs_nos.DeviceTypes.{
  ℤ, pos, ConnectionCommand, ConnectionOperation, upsert, remove, AppliedConnection, ApplyOptions,
}

pub record DeviceCommandBatch : Type 0 where
  pub commands : List ConnectionCommand
  pub options : ApplyOptions

pub data ConnectionDriftKind : Type 0 where
  missing mismatched unexpected : ConnectionDriftKind

pub record ConnectionDrift : Type 0 where
  pub id : Text
  pub kind : ConnectionDriftKind
  pub desired : ConnectionCommand
  pub actual : AppliedConnection

pub record ReconciliationPlan : Type 0 where
  pub full_snapshot : DeviceCommandBatch
  pub drifts : List ConnectionDrift

abbrev pub converged : ReconciliationPlan → Bool
converged plan = elim plan.drifts [ [] ↦ true | _ ∷ _ ↦ false ]

abbrev pub command_id : ConnectionCommand → Text
command_id c = c.id

abbrev pub connection_id : AppliedConnection → Text
connection_id c = c.id

abbrev pub drift_id : ConnectionDrift → Text
drift_id drift = drift.id

-- AppliedConnection{}
abbrev pub no_connection : AppliedConnection
no_connection = record { id = []; input_port = 0; output_port = 0; applied_version = 0 }

-- actual_by_id.emplace for each connection: a key that is there keeps its value.
unfoldable pub by_id :
    List AppliedConnection → TextMap AppliedConnection → TextMap AppliedConnection
by_id [] m = m
by_id (c ∷ cs) m =
    by_id cs (elim (find c.id m) [ none ↦ insert_or_assign c.id c m | some held ↦ m ])

abbrev pub differs : AppliedConnection → ConnectionCommand → Bool
differs found command =
    not (found.input_port == command.input_port)
    || not (found.output_port == command.output_port)
    || not (found.applied_version == command.desired_version)

-- What one round of the loop over the desired commands adds to the drifts.
unfoldable pub drift_of : ConnectionCommand → Option AppliedConnection → List ConnectionDrift
drift_of command none =
    record { id = command.id; kind = missing; desired = command; actual = no_connection } ∷ []
drift_of command (some found) =
    if differs found command
    then record { id = command.id; kind = mismatched; desired = command; actual = found } ∷ []
    else []

-- What it leaves of actual_by_id.
unfoldable pub forget :
    ConnectionCommand
    → Option AppliedConnection
    → TextMap AppliedConnection
    → TextMap AppliedConnection
forget command none m = m
forget command (some found) m = erase command.id m

-- The loop over the desired commands.
unfoldable pub compare_desired :
    List ConnectionCommand
    → TextMap AppliedConnection
    → List ConnectionDrift × TextMap AppliedConnection
compare_desired [] m = ([], m)
compare_desired (c ∷ cs) m =
    let found = find c.id m in
    let (drifts, left) = compare_desired cs (forget c found m) in (drift_of c found ++ drifts, left)

abbrev pub removal : Text → AppliedConnection → ConnectionCommand
removal id connection = record {
  operation = remove;
  id = id;
  input_port = 0;
  output_port = 0;
  desired_version = max connection.applied_version 1;
}

unfoldable pub removals : TextMap AppliedConnection → List ConnectionCommand
removals [] = []
removals ((id, connection) ∷ m) = removal id connection ∷ removals m

unfoldable pub unexpected_drifts : TextMap AppliedConnection → List ConnectionDrift
unexpected_drifts [] = []
unexpected_drifts ((id, connection) ∷ m) =
    record { id = id; kind = unexpected; desired = removal id connection; actual = connection }
    ∷ unexpected_drifts m

-- The plan for sorted snapshots without duplicates.
unfoldable pub plan_of : List ConnectionCommand → List AppliedConnection → ReconciliationPlan
plan_of desired actual =
    let (drifts, left) = compare_desired desired (by_id actual []) in
    record {
      full_snapshot = record {
        commands = sort_by command_id (desired ++ removals left);
        options = record { atomic = true; timeout = pos 1000; operation_id = [] };
      };
      drifts = sort_by drift_id (drifts ++ unexpected_drifts left);
    }

unfoldable pub build_reconciliation_plan :
    List ConnectionCommand → List AppliedConnection → Outcome ReconciliationPlan
build_reconciliation_plan desired actual =
    let wanted = sort_by command_id desired in
    let present = sort_by connection_id actual in
    if adjacent_find command_id wanted || adjacent_find connection_id present
    then throws Exception.invalid_argument
    else returns (plan_of wanted present)

-- ===== src/Reconciler/Refusal.antt =====
-- When buildReconciliationPlan of cpp/src/reconciler.cpp throws.
use mini_ocs_nos.Base.{◌≡◌, ◌↔◌, List, arith, inl, inr, Bool-cases}
use mini_ocs_nos.Base.Sort.{sort_by, adjacent_find}
use mini_ocs_nos.Base.Distinct.{Distinct, adjacent_find_iff}
use mini_ocs_nos.Base.Outcome.{returns, throws, Exception}
use mini_ocs_nos.DeviceTypes.{ConnectionCommand, AppliedConnection}
use mini_ocs_nos.Reconciler.{
  ReconciliationPlan, command_id, connection_id, plan_of, build_reconciliation_plan,
}

-- A plan is returned exactly if no id repeats among the desired commands and none among the
-- actual connections; if one does, std::invalid_argument is thrown.
pub build_reconciliation_plan_iff :
    (desired : List ConnectionCommand) (actual : List AppliedConnection)
    → (((plan : ReconciliationPlan) × (build_reconciliation_plan desired actual ≡ returns plan))
        ↔ (Distinct command_id desired × Distinct connection_id actual))
      × ((build_reconciliation_plan desired actual ≡ throws Exception.invalid_argument)
          ↔ ¬ (Distinct command_id desired × Distinct connection_id actual))
unfolding build_reconciliation_plan
build_reconciliation_plan_iff desired actual =
    let wanted = adjacent_find_iff command_id desired in
    let present = adjacent_find_iff connection_id actual in
    elim (Bool-cases (adjacent_find command_id (sort_by command_id desired))) [
      | inl bad ↦ ground (arith, wanted, present)
      | inr good ↦ elim (Bool-cases (adjacent_find connection_id (sort_by connection_id actual))) [
        | inl bad ↦ ground (arith, wanted, present)
        | inr fine ↦
            let plan = plan_of (sort_by command_id desired) (sort_by connection_id actual) in
            let built : build_reconciliation_plan desired actual ≡ returns plan = ground arith in
            ((λ p. (wanted.0 good, present.0 fine), λ u. (plan, built)), ground arith)
      ]
    ]

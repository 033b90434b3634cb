-- ===== src/Reconciler/Converges.antt =====
-- A plan of cpp/src/reconciler.cpp that the switch of cpp/src/simulated_ocs_device.cpp accepts.
use mathlib.Core.Option
use mini_ocs_nos.Base.{
  ◌≡◌, refl, ap, sym, ◌∙◌, true, false, none, some, List, [], ◌∷◌, arith, inl, inr, Option-cases,
  All,
}
use mini_ocs_nos.Base.Text.{Text}
use mini_ocs_nos.Base.TextMap.{TextMap, find, IsSorted, values}
use mini_ocs_nos.Base.TextMap.Laws.{AllEntries, AllEntries-mono}
use mini_ocs_nos.Base.Sort.{
  sort_by, adjacent_find, latest, keyed, sort_by_sorted, adjacent_find_sorted, find-keyed,
}
use mini_ocs_nos.Base.Outcome.{returns}
use mini_ocs_nos.DeviceTypes.{
  ConnectionCommand, upsert, AppliedConnection, ApplyOptions, ApplyResult, apply_ok,
}
use mini_ocs_nos.Device.State.{SimulatedOcsDevice}
use mini_ocs_nos.Device.Apply.{applied, cached_result, apply_connections}
use mini_ocs_nos.Device.Faults.{get_connections}
use mini_ocs_nos.Device.Staging.{last_for}
use mini_ocs_nos.Device.Invariant.{IsConsistent}
use mini_ocs_nos.Device.Atomic.{find-apply_connections, apply_connections-IsConsistent}
use mini_ocs_nos.Reconciler.{
  ReconciliationPlan, command_id, connection_id, plan_of, build_reconciliation_plan,
}
use mini_ocs_nos.Reconciler.Plan.{
  last_for-build_reconciliation_plan, build_reconciliation_plan-returns,
}
use mini_ocs_nos.Reconciler.Drifts.{build_reconciliation_plan-converged}

keyed-values :
    (m : TextMap AppliedConnection)
    → AllEntries (λ k c. k ≡ c.id) m
    → keyed connection_id (values m) ≡ m
unfolding keyed
keyed-values [] a = refl
keyed-values ((k, c) ∷ m) a = ground (arith, keyed-values m a.1)

module _ (d : SimulatedOcsDevice) (v : IsConsistent d) where
  keyed-get_connections : keyed connection_id (get_connections d) ≡ d.connections
  unfolding get_connections
  keyed-get_connections =
      keyed-values d.connections (AllEntries-mono _ _ (λ k c e. e.0) d.connections v.entries)

  get_connections-IsSorted : IsSorted (keyed connection_id (get_connections d))
  get_connections-IsSorted = rw keyed-get_connections v.sorted

  latest-get_connections :
      (k : Text) → latest connection_id k (get_connections d) ≡ find k d.connections
  latest-get_connections k =
      sym (find-keyed connection_id k (get_connections d) get_connections-IsSorted)
      ∙ ap (find k) keyed-get_connections

  get_connections-distinct :
      adjacent_find connection_id (sort_by connection_id (get_connections d)) ≡ false
  get_connections-distinct =
      ap (adjacent_find connection_id)
        (sort_by_sorted connection_id (get_connections d) get_connections-IsSorted)
      ∙ adjacent_find_sorted connection_id (get_connections d) get_connections-IsSorted

last_for-upsert :
    (k : Text) (cs : List ConnectionCommand) (c : ConnectionCommand)
    → All (λ x. x.operation ≡ upsert) cs
    → last_for k cs ≡ some c
    → c.operation ≡ upsert
unfolding last_for
last_for-upsert k [] c u h = cc
last_for-upsert k (x ∷ xs) c u h = ground (arith, last_for-upsert k xs c u.1)

-- A batch of upserts that is planned against the connections of a consistent switch, and that the
-- switch then applies without an error and not from its cache, leaves the switch with exactly the
-- desired connections: each id has what its last desired command asks for, and an id without a
-- desired command has none.
pub reconcile-reaches_desired :
    (d : SimulatedOcsDevice) (desired : List ConnectionCommand) (plan : ReconciliationPlan)
    (o : ApplyOptions) (r : ApplyResult) (d' : SimulatedOcsDevice) (k : Text)
    → IsConsistent d
    → All (λ c. c.operation ≡ upsert) desired
    → build_reconciliation_plan desired (get_connections d) ≡ returns plan
    → apply_connections d plan.full_snapshot.commands o ≡ some (r, d')
    → apply_ok r ≡ true
    → cached_result d o.operation_id ≡ none
    → find k d'.connections ≡ Option.map applied (last_for k desired)
reconcile-reaches_desired d desired plan o r d' k v u h s f n =
    let after = find-apply_connections d plan.full_snapshot.commands o r d' k s f n in
    let planned = last_for-build_reconciliation_plan desired (get_connections d) plan k h in
    elim (Option-cases (last_for k desired)) [
      | inl e ↦ ground (arith, latest-get_connections d v k)
      | inr (c, e) ↦ ground (arith, last_for-upsert k desired c u e)
    ]

-- One accepted batch is enough to reconcile a switch: where a batch of upserts is planned against
-- the connections of a consistent switch, and the switch then applies it without an error and not
-- from its cache, the plan that is built next for the same upserts exists and has no drifts.
pub reconcile-converges :
    (d : SimulatedOcsDevice) (desired : List ConnectionCommand) (plan : ReconciliationPlan)
    (o : ApplyOptions) (r : ApplyResult) (d' : SimulatedOcsDevice)
    → IsConsistent d
    → All (λ c. c.operation ≡ upsert) desired
    → build_reconciliation_plan desired (get_connections d) ≡ returns plan
    → apply_connections d plan.full_snapshot.commands o ≡ some (r, d')
    → apply_ok r ≡ true
    → cached_result d o.operation_id ≡ none
    → (plan' : ReconciliationPlan) × (build_reconciliation_plan desired (get_connections d')
        ≡ returns plan')
      × (plan'.drifts ≡ [])
unfolding build_reconciliation_plan
reconcile-converges d desired plan o r d' v u h s f n =
    let v' = apply_connections-IsConsistent d plan.full_snapshot.commands o r d' v s in
    let (e, distinct, m) = build_reconciliation_plan-returns desired (get_connections d) plan h in
    let next = plan_of (sort_by command_id desired) (sort_by connection_id (get_connections d')) in
    let built : build_reconciliation_plan desired (get_connections d') ≡ returns next =
      ground (arith, get_connections-distinct d' v') in
    (
      next,
      built,
      (build_reconciliation_plan-converged desired (get_connections d') next built).1 λ k.
          latest-get_connections d' v' k
          ∙ reconcile-reaches_desired d desired plan o r d' k v u h s f n,
    )

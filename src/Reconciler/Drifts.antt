-- ===== src/Reconciler/Drifts.antt =====
-- When a plan of cpp/src/reconciler.cpp has no drifts.
use mathlib.Core.Option
use mini_ocs_nos.Base.{
  ◌≡◌, ◌↔◌, refl, ap, sym, ◌∙◌, none, some, List, [], ◌∷◌, ◌++◌, arith, inl, inr, Option-cases,
}
use mini_ocs_nos.Base.Text.{Text}
use mini_ocs_nos.Base.TextMap.{TextMap, find, IsSorted, find-Above}
use mini_ocs_nos.Base.TextMap.Laws.{IsSorted-ext}
use mini_ocs_nos.Base.Sort.{
  sort_by, latest, keyed, latest-sort_by, sort_by-IsSorted, find-keyed, sort_by_empty,
}
use mini_ocs_nos.Base.Outcome.{returns}
use mini_ocs_nos.DeviceTypes.{ConnectionCommand, AppliedConnection}
use mini_ocs_nos.Device.Apply.{applied}
use mini_ocs_nos.Device.Staging.{last_for}
use mini_ocs_nos.Reconciler.{
  ReconciliationPlan, ConnectionDrift, command_id, connection_id, drift_id, by_id, drift_of, forget,
  compare_desired, unexpected_drifts, plan_of, build_reconciliation_plan,
}
use mini_ocs_nos.Reconciler.Plan.{
  left, find-left, left-IsSorted, by_id-find, forget-find, last_for-latest,
  build_reconciliation_plan-returns,
}

-- The connections are, id by id, what the commands ask for.
abbrev pub Agrees : List ConnectionCommand → TextMap AppliedConnection → Type 0
Agrees cs m =
    (k : Text) (c : ConnectionCommand)
    → latest command_id k cs ≡ some c
    → find k m ≡ some (applied c)

drift_of-applied : (c : ConnectionCommand) → drift_of c (some (applied c)) ≡ []
unfolding drift_of
drift_of-applied c = ground arith

latest_head :
    (c : ConnectionCommand) (cs : List ConnectionCommand)
    → IsSorted (keyed command_id (c ∷ cs))
    → (latest command_id c.id cs ≡ none) × (latest command_id c.id (c ∷ cs) ≡ some c)
unfolding latest keyed
latest_head c cs s =
    ground (arith, find-keyed command_id c.id cs s.1, find-Above c.id (keyed command_id cs) s.0)

Agrees-forget :
    (c : ConnectionCommand) (cs : List ConnectionCommand) (m : TextMap AppliedConnection)
    → IsSorted (keyed command_id (c ∷ cs))
    → Agrees (c ∷ cs) m
    → Agrees cs (forget c (find c.id m) m)
unfolding latest
Agrees-forget c cs m s a k x h = ground (arith, forget-find c k m, latest_head c cs s, a k x)

compare_desired-Agrees :
    (cs : List ConnectionCommand) (m : TextMap AppliedConnection)
    → IsSorted (keyed command_id cs)
    → Agrees cs m
    → (compare_desired cs m).0 ≡ []
unfolding compare_desired keyed
compare_desired-Agrees [] m s a = refl
compare_desired-Agrees (c ∷ cs) m s a =
    let here = a c.id c (latest_head c cs s).1 in
    let rest =
      compare_desired-Agrees cs (forget c (find c.id m) m) s.1 (Agrees-forget c cs m s a) in
    ground (arith, drift_of-applied c)

-- Every connection stands under its own id.
abbrev Named : TextMap AppliedConnection → Type 0
Named m = (k : Text) (a : AppliedConnection) → find k m ≡ some a → a.id ≡ k

drift_of-empty :
    (c : ConnectionCommand) (m : TextMap AppliedConnection)
    → Named m
    → drift_of c (find c.id m) ≡ []
    → find c.id m ≡ some (applied c)
unfolding drift_of
drift_of-empty c m n h = elim (Option-cases (find c.id m)) [
  | inl e ↦ ground arith
  | inr (a, e) ↦ ground (arith, n c.id a e)
]

append_empty : (xs ys : List ConnectionDrift) → xs ++ ys ≡ [] → (xs ≡ []) × (ys ≡ [])
append_empty [] ys h = (refl, ground arith)
append_empty (x ∷ xs) ys h = ground arith

Named-forget :
    (c : ConnectionCommand) (m : TextMap AppliedConnection)
    → Named m
    → Named (forget c (find c.id m) m)
Named-forget c m n k a h = ground (arith, forget-find c k m, n k a)

compare_desired-empty :
    (cs : List ConnectionCommand) (m : TextMap AppliedConnection)
    → Named m
    → (compare_desired cs m).0 ≡ []
    → Agrees cs m
unfolding compare_desired latest
compare_desired-empty [] m n h k x e = cc
compare_desired-empty (c ∷ cs) m n h k x e =
    let (d, rest) = append_empty _ _ h in
    let here = drift_of-empty c m n d in
    let later = compare_desired-empty cs (forget c (find c.id m) m) (Named-forget c m n) rest in
    elim (Option-cases (latest command_id k cs)) [
      | inl none_later ↦ ground arith
      | inr (y, f) ↦ ground (arith, later k y f, forget-find c k m)
    ]

unexpected_drifts_empty : (m : TextMap AppliedConnection) → unexpected_drifts m ≡ [] → m ≡ []
unfolding unexpected_drifts
unexpected_drifts_empty [] h = refl
unexpected_drifts_empty ((k, a) ∷ m) h = ground arith

latest_key :
    (cs : List AppliedConnection) (k : Text) (a : AppliedConnection)
    → find k (keyed connection_id cs) ≡ some a
    → a.id ≡ k
unfolding find keyed
latest_key [] k a h = cc
latest_key (c ∷ cs) k a h = ground (arith, latest_key cs k a)

-- The snapshots describe the same connections.
abbrev pub SameConnections : List ConnectionCommand → List AppliedConnection → Type 0
SameConnections desired actual =
    (k : Text) → latest connection_id k actual ≡ Option.map applied (latest command_id k desired)

module _ (desired : List ConnectionCommand) (actual : List AppliedConnection)
    (u : IsSorted (keyed command_id desired)) (v : IsSorted (keyed connection_id actual)) where
  find-present : (k : Text) → find k (by_id actual []) ≡ latest connection_id k actual
  unfolding find
  find-present k = by_id-find k actual [] ∙ find-keyed connection_id k actual v

  left_empty : SameConnections desired actual → left desired actual ≡ []
  unfolding find
  left_empty same =
      IsSorted-ext (left desired actual) [] (left-IsSorted desired actual) tt
        λ k. ground (arith, find-left k desired actual, find-keyed connection_id k actual v, same k)

  pub plan_of-converges : SameConnections desired actual → (plan_of desired actual).drifts ≡ []
  unfolding plan_of left unexpected_drifts sort_by
  plan_of-converges same =
      let none_left = left_empty same in
      let none_drifted =
        compare_desired-Agrees desired (by_id actual []) u
          (λ k c h. ground (arith, find-present k, same k)) in
      ground (arith, ap unexpected_drifts none_left)

  pub plan_of-converged : (plan_of desired actual).drifts ≡ [] → SameConnections desired actual
  unfolding plan_of left find
  plan_of-converged h k =
      let (drifted, extra) = append_empty _ _ (sort_by_empty drift_id _ h) in
      let agrees =
        compare_desired-empty desired (by_id actual [])
          (λ j a e.
            latest_key actual j a (find-keyed connection_id j actual v ∙ sym (find-present j) ∙ e))
          drifted in
      let none_left = unexpected_drifts_empty (left desired actual) extra in
      elim (Option-cases (latest command_id k desired)) [
        | inl e ↦ ground (
          arith,
          find-left k desired actual,
          find-keyed connection_id k actual v,
          ap (find k) none_left,
        )
        | inr (c, e) ↦ ground (arith, agrees k c e, find-present k)
      ]

-- A returned plan has no drifts exactly if the actual connections are, id by id, the ones that
-- the last desired commands ask for.
pub build_reconciliation_plan-converged :
    (desired : List ConnectionCommand) (actual : List AppliedConnection) (plan : ReconciliationPlan)
    → build_reconciliation_plan desired actual ≡ returns plan
    → (plan.drifts ≡ [])
      ↔ ((k : Text) → latest connection_id k actual ≡ Option.map applied (last_for k desired))
build_reconciliation_plan-converged desired actual plan h =
    let (e, n, m) = build_reconciliation_plan-returns desired actual plan h in
    let u = sort_by-IsSorted command_id desired n in
    let v = sort_by-IsSorted connection_id actual m in
    let back : (k : Text) → latest command_id k (sort_by command_id desired) ≡ last_for k desired =
      λ k. latest-sort_by command_id k desired ∙ sym (last_for-latest k desired) in
    let there : (k : Text)
        → latest connection_id k (sort_by connection_id actual) ≡ latest connection_id k actual =
      λ k. latest-sort_by connection_id k actual in
    (
      λ g k.
          sym (there k)
          ∙ plan_of-converged _ _ u v (ap (λ (p : ReconciliationPlan). p.drifts) (sym e) ∙ g) k
          ∙ ap (Option.map applied) (back k),
      λ g.
          ap (λ (p : ReconciliationPlan). p.drifts) e
          ∙ plan_of-converges _ _ u v (λ k. there k ∙ g k ∙ ap (Option.map applied) (sym (back k))),
    )

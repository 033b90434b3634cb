-- ===== src/Reconciler/Plan.antt =====
-- What the batch of a plan of cpp/src/reconciler.cpp asks for each id.
use mathlib.Core.Option
use mini_ocs_nos.Base.{
  ◌≡◌, refl, ite, false, Option, none, some, List, [], ◌∷◌, ◌++◌, arith, inl, inr, Option-cases,
}
use mini_ocs_nos.Base.Text.{Text, text_discrete}
use mini_ocs_nos.Base.TextMap.{
  TextMap, find, insert_or_assign, IsSorted, find-insert_or_assign, find-erase,
  insert_or_assign-IsSorted, erase-IsSorted, find-Above,
}
use mini_ocs_nos.Base.Sort.{
  sort_by, adjacent_find, latest, keyed, latest-sort_by, latest-append, sort_by-IsSorted,
  find-keyed,
}
use mini_ocs_nos.Base.Outcome.{returns}
use mini_ocs_nos.DeviceTypes.{ConnectionCommand, AppliedConnection}
use mini_ocs_nos.Device.Staging.{last_for}
use mini_ocs_nos.Reconciler.{
  ReconciliationPlan, command_id, connection_id, by_id, forget, compare_desired, removal, removals,
  plan_of, build_reconciliation_plan,
}

pub by_id-find :
    (k : Text) (cs : List AppliedConnection) (m : TextMap AppliedConnection)
    → find k (by_id cs m)
      ≡ elim (find k m) [ some held ↦ some held | none ↦ find k (keyed connection_id cs) ]
unfolding by_id keyed find
by_id-find k [] m = ground arith
by_id-find k (c ∷ cs) m = elim (Option-cases (find c.id m)) [
  | inl e ↦
      ground (arith, by_id-find k cs (insert_or_assign c.id c m), find-insert_or_assign c.id k c m)
  | inr (held, e) ↦ ground (arith, by_id-find k cs m)
]

by_id-IsSorted :
    (cs : List AppliedConnection) (m : TextMap AppliedConnection)
    → IsSorted m
    → IsSorted (by_id cs m)
unfolding by_id
by_id-IsSorted [] m s = s
by_id-IsSorted (c ∷ cs) m s = elim (Option-cases (find c.id m)) [
  | inl e ↦
      rw e (by_id-IsSorted cs (insert_or_assign c.id c m) (insert_or_assign-IsSorted c.id c m s))
  | inr (held, e) ↦ rw e (by_id-IsSorted cs m s)
]

pub forget-find :
    (c : ConnectionCommand) (k : Text) (m : TextMap AppliedConnection)
    → find k (forget c (find c.id m) m) ≡ ite (text_discrete c.id k) none (find k m)
unfolding forget
forget-find c k m = elim (Option-cases (find c.id m)) [
  | inl e ↦ ground arith
  | inr (held, e) ↦ ground (arith, find-erase c.id k m)
]

forget-IsSorted :
    (c : ConnectionCommand) (found : Option AppliedConnection) (m : TextMap AppliedConnection)
    → IsSorted m
    → IsSorted (forget c found m)
unfolding forget
forget-IsSorted c none m s = s
forget-IsSorted c (some found) m s = erase-IsSorted c.id m s

-- What the loop leaves of the actual connections: those without a desired command.
pub compare_desired-find :
    (k : Text) (cs : List ConnectionCommand) (m : TextMap AppliedConnection)
    → find k (compare_desired cs m).1
      ≡ elim (latest command_id k cs) [ some c ↦ none | none ↦ find k m ]
unfolding compare_desired latest
compare_desired-find k [] m = refl
compare_desired-find k (c ∷ cs) m =
    ground (arith, compare_desired-find k cs (forget c (find c.id m) m), forget-find c k m)

compare_desired-IsSorted :
    (cs : List ConnectionCommand) (m : TextMap AppliedConnection)
    → IsSorted m
    → IsSorted (compare_desired cs m).1
unfolding compare_desired
compare_desired-IsSorted [] m s = s
compare_desired-IsSorted (c ∷ cs) m s =
    compare_desired-IsSorted cs (forget c (find c.id m) m) (forget-IsSorted c (find c.id m) m s)

latest-removals :
    (k : Text) (m : TextMap AppliedConnection)
    → IsSorted m
    → latest command_id k (removals m) ≡ Option.map (removal k) (find k m)
unfolding latest removals find
latest-removals k [] s = refl
latest-removals k ((j, c) ∷ m) s = ground (arith, latest-removals k m s.1, find-Above j m s.0)

pub last_for-latest :
    (k : Text) (cs : List ConnectionCommand) → last_for k cs ≡ latest command_id k cs
unfolding last_for latest
last_for-latest k [] = refl
last_for-latest k (c ∷ cs) = ground (arith, last_for-latest k cs)

unfoldable pub left : List ConnectionCommand → List AppliedConnection → TextMap AppliedConnection
left desired actual = (compare_desired desired (by_id actual [])).1

pub find-left :
    (k : Text) (desired : List ConnectionCommand) (actual : List AppliedConnection)
    → find k (left desired actual) ≡ elim (latest command_id k desired) [
      | some c ↦ none
      | none ↦ find k (keyed connection_id actual)
    ]
unfolding left find
find-left k desired actual =
    ground (arith, compare_desired-find k desired (by_id actual []), by_id-find k actual [])

pub left-IsSorted :
    (desired : List ConnectionCommand) (actual : List AppliedConnection)
    → IsSorted (left desired actual)
unfolding left
left-IsSorted desired actual =
    compare_desired-IsSorted desired (by_id actual []) (by_id-IsSorted actual [] tt)

latest-plan_of :
    (k : Text) (desired : List ConnectionCommand) (actual : List AppliedConnection)
    → IsSorted (keyed connection_id actual)
    → latest command_id k (plan_of desired actual).full_snapshot.commands
      ≡ elim (latest command_id k desired) [
        | some c ↦ some c
        | none ↦ Option.map (removal k) (latest connection_id k actual)
      ]
unfolding left plan_of
latest-plan_of k desired actual s = ground (
  arith,
  latest-sort_by command_id k (desired ++ removals (left desired actual)),
  latest-append command_id k desired (removals (left desired actual)),
  latest-removals k (left desired actual) (left-IsSorted desired actual),
  find-left k desired actual,
  find-keyed connection_id k actual s,
)

-- A plan that is returned is the plan of the two sorted snapshots, neither with a repeated id.
pub build_reconciliation_plan-returns :
    (desired : List ConnectionCommand) (actual : List AppliedConnection) (plan : ReconciliationPlan)
    → build_reconciliation_plan desired actual ≡ returns plan
    → (plan ≡ plan_of (sort_by command_id desired) (sort_by connection_id actual))
      × (adjacent_find command_id (sort_by command_id desired) ≡ false)
      × (adjacent_find connection_id (sort_by connection_id actual) ≡ false)
unfolding build_reconciliation_plan
build_reconciliation_plan-returns desired actual plan h = ground arith

-- For each id, the batch of a plan ends with the last desired command for it, and where there is
-- none, with the removal of the actual connection of that id, if there is one.
pub last_for-build_reconciliation_plan :
    (desired : List ConnectionCommand) (actual : List AppliedConnection) (plan : ReconciliationPlan)
    (k : Text)
    → build_reconciliation_plan desired actual ≡ returns plan
    → last_for k plan.full_snapshot.commands ≡ elim (last_for k desired) [
      | some c ↦ some c
      | none ↦ Option.map (removal k) (latest connection_id k actual)
    ]
last_for-build_reconciliation_plan desired actual plan k h =
    let (e, n, m) = build_reconciliation_plan-returns desired actual plan h in
    ground (
      arith,
      last_for-latest k plan.full_snapshot.commands,
      last_for-latest k desired,
      latest-sort_by command_id k desired,
      latest-sort_by connection_id k actual,
      latest-plan_of k (sort_by command_id desired) (sort_by connection_id actual)
          (sort_by-IsSorted connection_id actual m),
    )

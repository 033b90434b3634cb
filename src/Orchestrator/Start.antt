-- ===== src/Orchestrator/Start.antt =====
-- startApplyTransition of cpp/src/orchestrator_service.cpp against canTransition.
use mini_ocs_nos.Base.{◌≡◌, refl, true, arith, ◌⊎◌, inl, inr}
use mini_ocs_nos.Base.Outcome.{returns}
use mini_ocs_nos.DeviceTypes.{ConnectionOperation, upsert, remove}
use mini_ocs_nos.ConnectionStateMachine.{
  ConnectionApplyStatus, absent, pending_create, applying, active, pending_update, pending_delete,
  removing, failed, retry_wait, drifted, reconciling, status_eq, can_transition, require_transition,
}
use mini_ocs_nos.Orchestrator.{executing, start_apply_transition}

-- One or two legal transitions lead from a status to another.
abbrev pub IsNear : ConnectionApplyStatus → ConnectionApplyStatus → Type 0
IsNear s u =
    (can_transition s u ≡ true)
    ⊎ ((t : ConnectionApplyStatus) × (can_transition s t ≡ true) × (can_transition t u ≡ true))

-- An apply that starts, starts in the status of its operation, and unless another apply of the
-- connection is being executed, one or two legal transitions lead there.
pub start_apply_transition-returns :
    (s u : ConnectionApplyStatus) (operation : ConnectionOperation)
    → start_apply_transition s operation ≡ returns u
    → (u ≡ executing operation) × ((s ≡ applying) ⊎ (s ≡ removing) ⊎ IsNear s u)
unfolding start_apply_transition require_transition can_transition status_eq
start_apply_transition-returns absent u upsert h =
    (ground arith, inr (inr (inr (pending_create, refl, ground arith))))
start_apply_transition-returns absent u remove h = ground arith
start_apply_transition-returns pending_create u upsert h = ground arith
start_apply_transition-returns pending_create u remove h = ground arith
start_apply_transition-returns applying u operation h = (ground arith, inl refl)
start_apply_transition-returns active u upsert h =
    (ground arith, inr (inr (inr (pending_update, refl, ground arith))))
start_apply_transition-returns active u remove h =
    (ground arith, inr (inr (inr (pending_delete, refl, ground arith))))
start_apply_transition-returns pending_update u upsert h = ground arith
start_apply_transition-returns pending_update u remove h = ground arith
start_apply_transition-returns pending_delete u upsert h = ground arith
start_apply_transition-returns pending_delete u remove h = ground arith
start_apply_transition-returns removing u operation h = (ground arith, inr (inl refl))
start_apply_transition-returns failed u upsert h =
    (ground arith, inr (inr (inr (retry_wait, refl, ground arith))))
start_apply_transition-returns failed u remove h =
    (ground arith, inr (inr (inr (retry_wait, refl, ground arith))))
start_apply_transition-returns retry_wait u upsert h =
    (ground arith, inr (inr (inl (ground arith))))
start_apply_transition-returns retry_wait u remove h =
    (ground arith, inr (inr (inl (ground arith))))
start_apply_transition-returns drifted u upsert h = ground arith
start_apply_transition-returns drifted u remove h = ground arith
start_apply_transition-returns reconciling u upsert h = ground arith
start_apply_transition-returns reconciling u remove h = ground arith

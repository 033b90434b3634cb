-- ===== src/Orchestrator/Results/Statuses.antt =====
-- The status that processResultOne of cpp/src/orchestrator_service.cpp gives to a connection.
use mini_ocs_nos.Base.{
  ℕ, ◌≡◌, refl, ap, sym, ◌∙◌, Bool, true, false, Option, none, some, arith, ◌⊎◌, inl, inr, ltb,
  Bool-cases, ◌&&◌, ◌||◌,
}
use mini_ocs_nos.Base.Outcome.{
  Outcome, returns, Ensures, Ensures-bind, Ensures-value, Ensures-throws, Ensures-if, >>=-returns,
}
use mini_ocs_nos.ConnectionStateMachine.{
  ConnectionApplyStatus, absent, pending_create, applying, active, pending_update, pending_delete,
  removing, failed, retry_wait, drifted, reconciling, status_eq, can_transition, require_transition,
}
use mini_ocs_nos.Base.Text.{Text, codes}
use mini_ocs_nos.Base.TextMap.{TextMap, find}
use mini_ocs_nos.RedisRepository.Events.{EventEnvelope}
use mini_ocs_nos.Orchestrator.Decode.{current_status, current_version}
use mini_ocs_nos.Orchestrator.Results.Decision.{
  is_recovery_result, removes_of, decide, is_recovering, is_stale, status_after, executing_for,
  require_result_transitions, decide_status,
}

-- A legal transition, or legal transitions that start over from a failure.
abbrev pub IsLegal : ConnectionApplyStatus → ConnectionApplyStatus → Type 0
IsLegal current next =
    (can_transition current next ≡ true)
    ⊎ (((current ≡ failed) ⊎ (current ≡ retry_wait))
        × (executing : ConnectionApplyStatus) × (can_transition retry_wait executing ≡ true)
        × (can_transition executing next ≡ true))

-- What a result says of the new status: FAILED for a failure, and one of the two others for a
-- success.
abbrev pub IsOutcome : Bool → ConnectionApplyStatus → Type 0
IsOutcome true next = (next ≡ active) ⊎ (next ≡ absent)
IsOutcome false next = next ≡ failed

status_after-IsOutcome :
    (success recovery removes : Bool) (current : ConnectionApplyStatus)
    → IsOutcome success (status_after success recovery removes current)
unfolding status_after
status_after-IsOutcome false recovery removes current = refl
status_after-IsOutcome true recovery removes current =
    elim (Bool-cases (status_eq current removing || (recovery && removes))) [
      | inl e ↦ rw e (inr refl)
      | inr e ↦ rw e (inl refl)
    ]

require_transition-legal :
    (s t : ConnectionApplyStatus) → require_transition s t ≡ returns tt → can_transition s t ≡ true
unfolding require_transition
require_transition-legal s t h = elim (Bool-cases (can_transition s t)) [
  | inl e ↦ e
  | inr e ↦ ground arith
]

is_recovering-from :
    (recovery success : Bool) (current : ConnectionApplyStatus)
    → is_recovering recovery success current ≡ true
    → (current ≡ failed) ⊎ (current ≡ retry_wait)
unfolding is_recovering status_eq
is_recovering-from recovery success failed h = inl refl
is_recovering-from recovery success retry_wait h = inr refl
is_recovering-from recovery success absent h = ground arith
is_recovering-from recovery success pending_create h = ground arith
is_recovering-from recovery success applying h = ground arith
is_recovering-from recovery success active h = ground arith
is_recovering-from recovery success pending_update h = ground arith
is_recovering-from recovery success pending_delete h = ground arith
is_recovering-from recovery success removing h = ground arith
is_recovering-from recovery success drifted h = ground arith
is_recovering-from recovery success reconciling h = ground arith

result_transitions-IsLegal :
    (recovering : Bool) (current next : ConnectionApplyStatus)
    → (recovering ≡ true → (current ≡ failed) ⊎ (current ≡ retry_wait))
    → Ensures (λ u. IsLegal current next) (require_result_transitions recovering current next)
unfolding require_result_transitions
result_transitions-IsLegal false current next f = record {
  holds = λ u h. inl (require_transition-legal current next h);
}
result_transitions-IsLegal true current next f = Ensures-bind _ λ u0 e0.
    Ensures-bind (require_transition retry_wait (executing_for next)) λ u1 e1. record {
      holds = λ u h. inr (
        f refl,
        executing_for next,
        require_transition-legal retry_wait (executing_for next) e1,
        require_transition-legal (executing_for next) next h,
      );
    }

abbrev pub IsDecided : ℕ → Bool → ℕ → ConnectionApplyStatus → Option ConnectionApplyStatus → Type 0
IsDecided version success application_version current none = Unit
IsDecided version success application_version current (some next) =
    (version ≡ application_version) × IsOutcome success next × IsLegal current next

pub decide_status-IsDecided :
    (version : ℕ) (success recovery removes : Bool) (application_version : ℕ)
    (current : ConnectionApplyStatus)
    → Ensures
        (IsDecided version success application_version current)
        (decide_status version success recovery removes application_version current)
unfolding decide_status is_stale
decide_status-IsDecided version success recovery removes application_version current =
    let recovering = is_recovering recovery success current in
    let next = status_after success recovery removes current in
    Ensures-if (is_stale version application_version current recovering) (λ e. Ensures-value tt)
      λ fresh.
        Ensures-if (ltb application_version version) (λ e. Ensures-throws)
          λ known. Ensures-bind (require_result_transitions recovering current next) λ u e.
            Ensures-value (
              ground arith,
              status_after-IsOutcome success recovery removes current,
              (result_transitions-IsLegal recovering current next
                    (is_recovering-from recovery success current)).holds
                  u e,
            )

-- A result that gives a row a new status has the version of the row. The status is FAILED after a
-- failure, and ACTIVE or ABSENT after a success. It is reached by a legal transition, or, where
-- the row is failed or waits for a retry, by two legal transitions from RETRY_WAIT.
pub decide-returns :
    (event : EventEnvelope) (success : Bool) (read_id : Outcome Text) (application : TextMap Text)
    (next : ConnectionApplyStatus)
    → decide event success read_id application ≡ returns (some next)
    → (current : ConnectionApplyStatus) × (current_status application ≡ returns current)
      × (current_version application ≡ returns event.desired_version)
      × IsOutcome success next
      × IsLegal current next
unfolding decide
decide-returns event success read_id application next h =
    let (version, e, k) = >>=-returns (current_version application) _ h in
    let (current, e', k') = >>=-returns (current_status application) _ k in
    let (command_id, e'', k'') = >>=-returns read_id _ k' in
    let (same, outcome, legal) =
      (decide_status-IsDecided event.desired_version success
          (is_recovery_result command_id event.event_id)
          (removes_of (find (codes "operation") application)) version current).holds
        (some next) k'' in
    (current, e', e ∙ ap returns (sym same), outcome, legal)

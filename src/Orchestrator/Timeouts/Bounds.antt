-- ===== src/Orchestrator/Timeouts/Bounds.antt =====
-- What handleTimeoutResult of cpp/src/orchestrator_service.cpp records of a timeout is a retry as
-- long as fewer than max_retries are completed.
use mini_ocs_nos.Base.{
  ℕ, suc, ◌≤◌, ◌<◌, ◌≡◌, refl, Option, none, some, arith, ◌⊎◌, inl, inr, Bool-cases, ltb, not, ◌&&◌,
  if◌then◌else◌,
}
use mini_ocs_nos.Base.Text.{Text, codes, text_discrete, compare_text}
use mini_ocs_nos.Base.TextMap.{TextMap, find, insert_or_assign}
use mini_ocs_nos.Base.Decimal.{to_string}
use mini_ocs_nos.Base.Outcome.{returns, Ensures, Ensures-bind, Ensures-value, Ensures-if}
use mini_ocs_nos.ConnectionStateMachine.{
  ConnectionApplyStatus, applying, removing, failed, retry_wait, status_eq, require_transition,
}
use mini_ocs_nos.Orchestrator.{ApplyRetryPolicy, retry_at_ns}
use mini_ocs_nos.Orchestrator.Decode.{current_status}
use mini_ocs_nos.Orchestrator.Timeouts.Metadata.{
  is_for_command, completed_retries, retry_metadata, new_metadata,
}

-- The metadata of a retry that is scheduled, the next one after `completed` retries.
abbrev pub IsScheduled : ApplyRetryPolicy → ℕ → ℕ → TextMap Text → Type 0
IsScheduled policy completed now metadata =
    (completed < policy.max_retries)
    × (find (codes "retry_scheduled") metadata ≡ some (codes "true"))
    × (find (codes "apply_status") metadata ≡ some (codes "RETRY_WAIT"))
    × (find (codes "retry_attempt") metadata ≡ some (to_string (suc completed)))
    × (find (codes "next_retry_at_ns") metadata
        ≡ some (to_string (retry_at_ns now (suc completed) policy)))

-- The metadata where no retry is left.
abbrev pub IsGivenUp : ApplyRetryPolicy → ℕ → TextMap Text → Type 0
IsGivenUp policy completed metadata =
    (policy.max_retries ≤ completed)
    × (find (codes "retry_scheduled") metadata ≡ some (codes "false"))
    × (find (codes "apply_status") metadata ≡ some (codes "FAILED"))
    × (find (codes "retry_attempt") metadata ≡ some (to_string completed))

retry_metadata-cases :
    (policy : ApplyRetryPolicy) (command_id : Text) (version completed now : ℕ)
    → IsScheduled policy completed now (retry_metadata policy command_id version completed now)
      ⊎ IsGivenUp policy completed (retry_metadata policy command_id version completed now)
unfolding retry_metadata find insert_or_assign compare_text text_discrete codes
    mini_ocs_nos.ConnectionStateMachine.to_string
retry_metadata-cases policy command_id version completed now =
    elim (Bool-cases (ltb completed policy.max_retries)) [
      | inl e ↦ inl (ground arith, rw e refl, rw e refl, rw e refl, rw e refl)
      | inr e ↦ inr (ground arith, rw e refl, rw e refl, rw e refl)
    ]

-- What is recorded for the row of a timeout.
abbrev pub IsRecorded : ApplyRetryPolicy → ℕ → TextMap Text → Option (TextMap Text) → Type 0
IsRecorded policy now first none = Unit
IsRecorded policy now first (some metadata) =
    (completed : ℕ) × (completed_retries first ≡ returns completed)
    × (IsScheduled policy completed now metadata ⊎ IsGivenUp policy completed metadata)

recorded :
    (policy : ApplyRetryPolicy) (command_id : Text) (version now : ℕ) (first : TextMap Text)
    → Ensures (IsRecorded policy now first) (new_metadata policy command_id version now first)
unfolding new_metadata
recorded policy command_id version now first =
    Ensures-bind (is_for_command first version command_id) λ same e0.
      Ensures-if (not same) (λ e. Ensures-value tt)
        λ e1. Ensures-bind (current_status first) λ current e2.
          Ensures-if (not (status_eq current applying) && not (status_eq current removing))
            (λ e. Ensures-value tt)
            λ e3. Ensures-bind (require_transition current failed) λ u e4.
              Ensures-bind (completed_retries first) λ completed e5.
                Ensures-bind
                  (if ltb completed policy.max_retries
                    then require_transition failed retry_wait
                    else returns tt)
                  λ v e6.
                    Ensures-value
                      (completed, e5, retry_metadata-cases policy command_id version completed now)

-- A timeout of a row with a number of completed retries schedules the next retry, in the status
-- RETRY_WAIT and at its time, if fewer than max_retries are completed; otherwise it schedules
-- none, in the status FAILED and with the number unchanged.
pub new_metadata-returns :
    (policy : ApplyRetryPolicy) (command_id : Text) (version now : ℕ)
    (first metadata : TextMap Text)
    → new_metadata policy command_id version now first ≡ returns (some metadata)
    → (completed : ℕ) × (completed_retries first ≡ returns completed)
      × (IsScheduled policy completed now metadata ⊎ IsGivenUp policy completed metadata)
new_metadata-returns policy command_id version now first metadata h =
    (recorded policy command_id version now first).holds (some metadata) h

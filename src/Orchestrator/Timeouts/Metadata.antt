-- ===== src/Orchestrator/Timeouts/Metadata.antt =====
-- What handleTimeoutResult of cpp/src/orchestrator_service.cpp records of a timeout.
use mini_ocs_nos.Base.{
  ℕ, suc, Bool, false, not, ◌&&◌, Option, none, some, [], ◌∷◌, ltb, ◌==◌, if◌then◌else◌,
}
use mini_ocs_nos.Base.Text.{Text, codes}
use mini_ocs_nos.Base.TextMap.{TextMap, find, insert_or_assign}
use mini_ocs_nos.Base.Decimal.{to_string, stoull}
use mini_ocs_nos.Base.Outcome.{Outcome, returns, ◌>>=◌, ◌>>◌}
use mini_ocs_nos.Errors
use mini_ocs_nos.Errors.{ErrorCode}
use mini_ocs_nos.ConnectionStateMachine
use mini_ocs_nos.ConnectionStateMachine.{
  ConnectionApplyStatus, applying, removing, failed, retry_wait, status_eq, require_transition,
}
use mini_ocs_nos.RedisRepository.Writes.{has_no_fields}
use mini_ocs_nos.Orchestrator.{ApplyRetryPolicy, retry_at_ns}
use mini_ocs_nos.Orchestrator.Decode.{is_text, current_status, current_version}
use mini_ocs_nos.Orchestrator.Databases.{row, value_at}

-- Whether a row is of a version and a command.
unfoldable pub is_for_command : TextMap Text → ℕ → Text → Outcome Bool
unfolding current_version
is_for_command application version command_id =
    if has_no_fields application
    then returns false
    else current_version application >>= λ v. elim (find (codes "command_id") application) [
      | none ↦ returns false
      | some id ↦ returns (v == version && is_text id command_id)
    ]

abbrev pub completed_retries : TextMap Text → Outcome ℕ
completed_retries application = elim (find (codes "retry_attempt") application) [
  | none ↦ returns 0
  | some text ↦ stoull text
]

-- What is recorded of the timeout after `completed` retries.
unfoldable pub retry_metadata : ApplyRetryPolicy → Text → ℕ → ℕ → ℕ → TextMap Text
unfolding retry_at_ns
retry_metadata policy command_id version completed now =
    let schedule = ltb completed policy.max_retries in
    let next_attempt = if schedule then suc completed else completed in
    row (
      (codes "command_id", command_id)
      ∷ (codes "desired_version", to_string version)
      ∷ (codes "retry_attempt", to_string next_attempt)
      ∷ (
        codes "next_retry_at_ns",
        to_string (if schedule then retry_at_ns now next_attempt policy else 0),
      )
      ∷ (
        codes "apply_status",
        ConnectionStateMachine.to_string (if schedule then retry_wait else failed),
      )
      ∷ (codes "retry_scheduled", if schedule then codes "true" else codes "false")
      ∷ [])

-- The part for a timeout that is not recorded yet, with the row of the first command: none if the
-- row is not being executed by the command.
unfoldable pub new_metadata :
    ApplyRetryPolicy → Text → ℕ → ℕ → TextMap Text → Outcome (Option (TextMap Text))
unfolding is_for_command current_status require_transition status_eq retry_metadata
new_metadata policy command_id version now first =
    is_for_command first version command_id >>= λ same.
    if not same
    then returns none
    else current_status first >>= λ current.
        if not (status_eq current applying) && not (status_eq current removing)
        then returns none
        else require_transition current failed
          >> (completed_retries first >>= λ completed.
              (if ltb completed policy.max_retries
                then require_transition failed retry_wait
                else returns tt)
              >> returns (some (retry_metadata policy command_id version completed now)))

-- The row of a command after the timeout.
unfoldable pub timeout_row : Text → Text → TextMap Text → TextMap Text → Outcome (TextMap Text)
timeout_row command_id error_message metadata application = do
  apply_status ← value_at (codes "apply_status") metadata
  retry_attempt ← value_at (codes "retry_attempt") metadata
  next_retry_at ← value_at (codes "next_retry_at_ns") metadata
  returns (
      insert_or_assign (codes "last_error_message") error_message (
        insert_or_assign (codes "last_error_code") (Errors.to_string ErrorCode.apply_timeout) (
          insert_or_assign (codes "failed_command_id") command_id (
            insert_or_assign (codes "next_retry_at_ns") next_retry_at (
              insert_or_assign (codes "retry_attempt") retry_attempt
                (insert_or_assign (codes "apply_status") apply_status application))))))

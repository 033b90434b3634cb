-- ===== src/Orchestrator.antt =====
-- cpp/include/ocs/orchestrator_service.hpp and cpp/src/orchestrator_service.cpp. Here are the parts
-- of the orchestrator that keep no database: the checks of the constructor, the status that an
-- apply starts with, and the time of a retry; the children have the handlers.
pub mod Backoff
pub mod Start
pub mod Decode
pub mod Databases
pub mod Publications
pub mod Replacements
pub mod Heartbeat
pub mod Alarms
pub mod Clearing
pub mod Timeouts
pub mod Configs
pub mod Retries
pub mod Results
mod Examples
mod Runs
use mini_ocs_nos.Base.{
  ℕ, zero, suc, ◌+◌, ◌-◌, ◌*◌, ◌/◌, ◌%◌, ◌^◌, min, Bool, true, false, ◌||◌, ltb, leb, ◌==◌,
  if◌then◌else◌,
}
use mini_ocs_nos.Base.Outcome.{Outcome, returns, throws, Exception, ◌>>=◌, ◌>>◌}
use mini_ocs_nos.DeviceTypes.{ℤ, pos, negsuc, ConnectionOperation, upsert, remove}
use mini_ocs_nos.ConnectionStateMachine.{
  ConnectionApplyStatus, absent, pending_create, applying, active, pending_update, pending_delete,
  removing, failed, retry_wait, drifted, reconciling, status_eq, require_transition,
}

-- The constructor of OrchestratorService refuses negative durations, so they are numbers here, of
-- milliseconds.
pub record ApplyRetryPolicy : Type 0 where
  pub max_retries : ℕ
  pub base_backoff : ℕ
  pub max_backoff : ℕ

-- The bounds of the constructor; std::chrono::hours(1) is 3600000 milliseconds.
abbrev pub is_outside_bounds : ApplyRetryPolicy → Bool
is_outside_bounds policy =
    ltb 100 policy.max_retries
    || ltb policy.max_backoff policy.base_backoff
    || ltb 3600000 policy.max_backoff

-- The checks of the constructor, with the idle time in milliseconds.
unfoldable pub check_arguments : ℤ → ApplyRetryPolicy → Outcome (Unit {0})
check_arguments (negsuc n) policy = throws Exception.invalid_argument
check_arguments (pos pending_min_idle) policy =
    if ltb 3600000 pending_min_idle || is_outside_bounds policy
    then throws Exception.invalid_argument
    else returns tt

-- The loop over the exponents, for a number of rounds.
unfoldable pub double_delay : ℕ → ℕ → ℕ → ℕ
double_delay zero delay max_backoff = delay
double_delay (suc rounds) delay max_backoff =
    let rest = double_delay rounds (delay * 2) max_backoff in
    if delay == 0 then delay else if leb (max_backoff / 2) delay then max_backoff else rest

-- The exponents run from 1 up to the attempt, which is excluded.
unfoldable pub retry_at_ns : ℕ → ℕ → ApplyRetryPolicy → ℕ
retry_at_ns now_ns retry_attempt policy =
    let delay = double_delay (retry_attempt - 1) policy.base_backoff policy.max_backoff in
    (now_ns + min delay policy.max_backoff * 1000000) % 2 ^ 64

abbrev pub executing : ConnectionOperation → ConnectionApplyStatus
executing remove = removing
executing upsert = applying

-- The status that an apply passes through before it is executed.
abbrev pub pending : ConnectionApplyStatus → ConnectionOperation → ConnectionApplyStatus
pending current remove = pending_delete
pending current upsert = if status_eq current absent then pending_create else pending_update

unfoldable pub start_apply_transition :
    ConnectionApplyStatus → ConnectionOperation → Outcome ConnectionApplyStatus
start_apply_transition current operation =
    let next = executing operation in
    let step = pending current operation in
    if status_eq current applying || status_eq current removing
    then returns next
    else if status_eq current failed
    then require_transition current retry_wait
      >> (require_transition retry_wait next >> returns next)
    else if status_eq current retry_wait
    then require_transition current next >> returns next
    else require_transition current step >> (require_transition step next >> returns next)

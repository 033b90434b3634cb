-- ===== src/Orchestrator/Retries.antt =====
-- processRetryOne of cpp/src/orchestrator_service.cpp: a retry that is due is sent to the switch
-- again.
use mini_ocs_nos.Base.{
  ℕ, Bool, true, false, not, ◌&&◌, ◌||◌, Option, none, some, List, [], ◌∷◌, ◌++◌, ltb, ◌==◌,
  if◌then◌else◌,
}
use mini_ocs_nos.Base.Text.{Text, codes}
use mini_ocs_nos.Base.TextMap.{TextMap, find, insert_or_assign}
use mini_ocs_nos.Base.Decimal.{to_string}
use mini_ocs_nos.Base.Outcome.{Outcome, returns, ◌>>=◌, ◌>>◌}
use mini_ocs_nos.DeviceTypes.{ConnectionCommand}
use mini_ocs_nos.ConnectionStateMachine
use mini_ocs_nos.ConnectionStateMachine.{
  ConnectionApplyStatus, retry_wait, status_eq, require_transition,
}
use mini_ocs_nos.Reconciler.{DeviceCommandBatch}
use mini_ocs_nos.RedisKeys.Tables.{connection_app_key, connection_device_key}
use mini_ocs_nos.RedisKeys.Orch.{
  orch_config_batch_key, orch_retry_application_publication_key, orch_retry_device_publication_key,
  orch_retry_command_publication_key,
}
use mini_ocs_nos.RedisRepository.Events.{EventEnvelope, StreamMessage}
use mini_ocs_nos.RedisRepository.Server.{Server}
use mini_ocs_nos.RedisRepository.Writes.{get_hash, has_no_fields}
use mini_ocs_nos.Json.{JsonLibrary}
use mini_ocs_nos.DeviceCommand.{encode_device_command, decode_device_command}
use mini_ocs_nos.Orchestrator.{executing}
use mini_ocs_nos.Orchestrator.Decode.{is_text, current_status, current_version}
use mini_ocs_nos.Orchestrator.Databases.{
  Databases, Hashes, keyed, device_commands, device_retries, next_message, row, publish_versioned,
  publish_event, prepare_row, has_hash, acknowledge,
}
use mini_ocs_nos.Orchestrator.Configs.{batch_operation}

-- What a retry event carries.
pub record Retry (J : JsonLibrary) : Type 0 where
  pub batch : DeviceCommandBatch
  pub failed_command_id : Text
  pub retry_attempt : ℕ
  pub command_id : Text

-- Whether a row that is there waits for this retry, or was already given its command.
unfoldable pub is_command_of : TextMap Text → Text → Text → Bool → Bool
is_command_of application failed_command_id command_id started =
    elim (find (codes "command_id") application) [
      | none ↦ false
      | some id ↦ is_text id failed_command_id || (started && is_text id command_id)
    ]

unfoldable pub is_current_retry :
    TextMap Text → ConnectionCommand → Text → Text → Bool → Outcome Bool
unfolding current_version is_command_of
is_current_retry application command failed_command_id command_id started =
    if has_no_fields application
    then returns false
    else current_version application >>= λ version. returns (
        version == command.desired_version
        && is_command_of application failed_command_id command_id started)

-- Whether the row stops the retry.
unfoldable pub stops_retry : TextMap Text → ConnectionCommand → Text → Text → Bool → Outcome Bool
unfolding is_current_retry current_status status_eq
stops_retry application command failed_command_id command_id started =
    is_current_retry application command failed_command_id command_id started >>= λ current.
    if not current
    then returns true
    else if started
    then returns false
    else current_status application >>= λ status. returns (not (status_eq status retry_wait))

-- The row of a command that is tried again.
unfoldable pub retry_row :
    TextMap Text → ConnectionCommand → Text → Text → ℕ → Bool → Outcome (TextMap Text)
unfolding require_transition
retry_row application command failed_command_id command_id retry_attempt started =
    (if started
      then returns application
      else require_transition retry_wait (executing command.operation)
        >> returns (
            insert_or_assign (codes "apply_status")
              (ConnectionStateMachine.to_string (executing command.operation)) application))
    >>= λ changed. returns (
        insert_or_assign (codes "failed_command_id") failed_command_id (
          insert_or_assign (codes "next_retry_at_ns") [] (
            insert_or_assign (codes "retry_attempt") (to_string retry_attempt)
              (insert_or_assign (codes "command_id") command_id changed))))

module _ (S : Server) (J : JsonLibrary) where
  unfoldable pub retry_batch : J.Value → Outcome DeviceCommandBatch
  unfolding decode_device_command
  retry_batch payload =
      J.at payload (codes "batch") >>= J.dump >>= λ text. decode_device_command J text

  unfoldable pub read_retry : EventEnvelope → J.Value → Outcome (Retry J)
  unfolding retry_batch
  read_retry event payload = do
    batch ← retry_batch payload
    failed_command_id ← J.at payload (codes "failed_command_id") >>= J.get_text
    retry_attempt ← J.at payload (codes "retry_attempt") >>= J.get_uint64
    returns (record {
      batch = batch;
      failed_command_id = failed_command_id;
      retry_attempt = retry_attempt;
      command_id = event.event_id ++ codes ":command";
    })

  -- The loop over the commands: none if a row stops the retry.
  unfoldable pub retry_rows :
      EventEnvelope → Retry J → Bool → S.Db → List ConnectionCommand → Outcome (Option Hashes)
  unfolding get_hash stops_retry retry_row
  retry_rows event retry started appl [] = returns (some [])
  retry_rows event retry started appl (command ∷ commands) =
      let rest = retry_rows event retry started appl commands in
      let application = get_hash S (connection_app_key event.device command.id) appl in
      stops_retry application command retry.failed_command_id retry.command_id started >>= λ stop.
      if stop
      then returns none
      else retry_row application command retry.failed_command_id retry.command_id
          retry.retry_attempt started
        >>= λ changed. rest >>= λ others. elim others [
          | none ↦ returns none
          | some rows ↦ returns (some ((command.id, changed) ∷ rows))
        ]

  abbrev retry_marker : EventEnvelope → Retry J → TextMap Text
  retry_marker event retry = row (
      (codes "retry_event_id", event.event_id)
      ∷ (codes "command_id", retry.command_id)
      ∷ (codes "desired_version", to_string event.desired_version)
      ∷ (codes "retry_attempt", to_string retry.retry_attempt)
      ∷ [])

  unfoldable pub retry_command_event : EventEnvelope → Retry J → ℕ → Text → EventEnvelope
  retry_command_event event retry now payload = record event {
    event_schema_version = 1;
    event_id = retry.command_id;
    timestamp_ns = now;
    operation = batch_operation retry.batch;
    payload = payload;
  }

-- processRetryOne; `after_phase` is the caller's function, `now` the time at which the retry is
-- looked at, and `event_now` the time of the command event.
module _ (S : Server) (J : JsonLibrary) (after_phase : Text → Outcome (Unit {0}))
    (now event_now : ℕ) where
  -- The publications: the application rows, the device rows, the prepared batch, the command.
  unfoldable pub publish_retry_command :
      EventEnvelope → Retry J → Hashes → Databases S → Outcome (Databases S)
  unfolding publish_versioned prepare_row encode_device_command publish_event retry_command_event
  publish_retry_command event retry rows dbs = do
    appl ←
        publish_versioned S (orch_retry_application_publication_key event.event_id)
          (retry_marker S J event retry) (keyed (connection_app_key event.device) rows) dbs.appl
    tt ← after_phase (codes "retry-application")
    device ←
        publish_versioned S (orch_retry_device_publication_key event.event_id)
          (retry_marker S J event retry) (keyed (connection_device_key event.device) rows)
          dbs.device
    tt ← after_phase (codes "retry-device")
    payload ← encode_device_command J retry.batch
    prepared ←
        prepare_row S (orch_config_batch_key event.event_id)
          (row (
            (codes "event_id", event.event_id)
            ∷ (codes "request_id", event.request_id)
            ∷ (codes "device", event.device)
            ∷ (codes "payload", payload)
            ∷ []))
          device
    commanded ←
        publish_event S (orch_retry_command_publication_key event.event_id)
          (retry_marker S J event retry) device_commands
          (retry_command_event S J event retry event_now payload) prepared
    tt ← after_phase (codes "retry-command")
    returns (record dbs { appl = appl; device = commanded })

  -- The part for a retry that is due.
  unfoldable pub process_due_retry : EventEnvelope → J.Value → Databases S → Outcome (Databases S)
  unfolding read_retry has_hash retry_rows publish_retry_command
  process_due_retry event payload dbs =
      let started =
        has_hash S (orch_retry_application_publication_key event.event_id) dbs.appl
        || has_hash S (orch_retry_device_publication_key event.event_id) dbs.device in
      read_retry S J event payload >>= λ retry.
      if has_hash S (orch_retry_command_publication_key event.event_id) dbs.device
      then returns dbs
      else retry_rows S J event retry started dbs.appl retry.batch.commands >>= λ found.
          elim found [ none ↦ returns dbs | some rows ↦ publish_retry_command event retry rows dbs ]

  -- A retry that is not due is left pending; every other way that returns acknowledges it.
  unfoldable pub process_retry : StreamMessage → Databases S → Outcome (Bool × Databases S)
  unfolding process_due_retry
  process_retry message dbs = J.parse message.event.payload >>= λ payload.
      (J.at payload (codes "not_before_ns") >>= J.get_uint64) >>= λ not_before_ns.
      if ltb now not_before_ns
      then returns (false, dbs)
      else process_due_retry message.event payload dbs >>= λ done.
          returns (true, acknowledge S device_retries message.id done)

  unfoldable pub process_retry_one :
      List StreamMessage → List StreamMessage → Databases S → Outcome (Bool × Databases S)
  unfolding process_retry
  process_retry_one claimed fresh dbs = elim (next_message claimed fresh) [
    | none ↦ returns (false, dbs)
    | some message ↦ process_retry message dbs
  ]

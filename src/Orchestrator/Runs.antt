-- ===== src/Orchestrator/Runs.antt =====
-- Instances for the handlers of cpp/src/orchestrator_service.cpp, on the server in memory and the
-- JSON library of Json.Postfix.
use mini_ocs_nos.Base.{ℕ, ◌≡◌, ◌≢◌, refl, ap, true, false, arith, Option, some, [], ◌∷◌}
use mini_ocs_nos.Base.Text.{Text, codes, text_discrete, compare_text}
use mini_ocs_nos.Base.TextMap.{TextMap, find, insert_or_assign}
use mini_ocs_nos.Base.Decimal.{to_string, stoull}
use mini_ocs_nos.Base.Outcome.{Outcome, returns, throws, Exception}
use mini_ocs_nos.DeviceTypes.{pos, upsert}
use mini_ocs_nos.RedisKeys.Tables.{connection_app_key}
use mini_ocs_nos.RedisKeys.Orch.{orch_device_command_publication_key}
use mini_ocs_nos.ConnectionStateMachine.{
  ConnectionApplyStatus, active, status_eq, require_transition, connection_apply_status_from_string,
}
use mini_ocs_nos.Reconciler.{DeviceCommandBatch}
use mini_ocs_nos.RedisRepository.Events.{EventEnvelope}
use mini_ocs_nos.RedisRepository.Server.Memory.{
  is_stream_name, is_one_of, memory, memory-IsLawful, empty_store, run_memory, merge,
}
use mini_ocs_nos.RedisRepository.Endpoint.{strip_prefix}
use mini_ocs_nos.RedisRepository.Watch.{watch_loop, is_refused}
use mini_ocs_nos.RedisRepository.Server.{exec, hmset}
use mini_ocs_nos.DeviceCommand.{operation_name}
use mini_ocs_nos.Json.Postfix.{postfix, Value, write}
use mini_ocs_nos.Orchestrator.{ApplyRetryPolicy, double_delay}
use mini_ocs_nos.Orchestrator.Decode.{current_status, current_version, decode_config_batch_event}
use mini_ocs_nos.Orchestrator.Decode.WellFormed.{IsRequest, decode_config_batch_event-IsRequest}
use mini_ocs_nos.Orchestrator.Databases.{Databases, row, has_hash}
use mini_ocs_nos.Orchestrator.Results.{process_settled_result}
use mini_ocs_nos.Orchestrator.Results.Rows.{IsResultHandled, process_settled_result-row}
use mini_ocs_nos.Orchestrator.Timeouts.Metadata.{completed_retries, new_metadata}
use mini_ocs_nos.Orchestrator.Timeouts.{schedule_retry}
use mini_ocs_nos.Orchestrator.Timeouts.Schedules.{IsFollowedUp, schedule_retry-returns}
use mini_ocs_nos.Orchestrator.Configs.{process_config}
use mini_ocs_nos.Orchestrator.Configs.Repeats.{process_config_repeated}

-- {"input_port": 1, "output_port": 2}
abbrev ports : Value
ports =
    Value.field (codes "input_port") (Value.number 1)
      (Value.field (codes "output_port") (Value.number 2) Value.null)

abbrev event : EventEnvelope
event = record {
  event_schema_version = 1;
  event_id = 97 ∷ [];
  request_id = 98 ∷ [];
  timestamp_ns = 5;
  device = 100 ∷ [];
  resource_type = codes "connection";
  resource_id = 99 ∷ [];
  operation = codes "UPSERT";
  desired_version = 1;
  payload = write ports;
}

abbrev decoded : DeviceCommandBatch
decoded = record {
  commands =
      record {
        operation = upsert;
        id = 99 ∷ [];
        input_port = 1;
        output_port = 2;
        desired_version = 1;
      }
      ∷ [];
  options = record { atomic = true; timeout = pos 1000; operation_id = [] };
}

decode_config_batch_event-IsRequest_example : IsRequest event decoded
unfolding decode_config_batch_event postfix text_discrete codes write
decode_config_batch_event-IsRequest_example =
    decode_config_batch_event-IsRequest postfix event decoded refl

abbrev application : TextMap Text
application = row (
    (codes "apply_status", codes "APPLYING")
    ∷ (codes "command_id", 107 ∷ [])
    ∷ (codes "desired_version", codes "1")
    ∷ (codes "retry_attempt", codes "2")
    ∷ [])

abbrev policy : ApplyRetryPolicy
policy = record { max_retries = 3; base_backoff = 100; max_backoff = 5000 }

abbrev metadata : Outcome (Option (TextMap Text)) → TextMap Text
metadata (returns (some fields)) = fields
metadata _ = []

abbrev empty : Databases memory
empty = record {
  config = empty_store;
  appl = empty_store;
  device = empty_store;
  alarm = empty_store;
  counters = empty_store;
  acknowledged = [];
}

abbrev after_run : Outcome (Databases memory) → Databases memory
after_run (returns dbs) = dbs
after_run _ = empty

abbrev run : Databases memory
run = after_run (process_config memory postfix (λ phase. returns tt) 6 event empty)

true-ne-false : true ≢ false
true-ne-false e = cc

run-ne-empty : run ≢ empty
unfolding process_config postfix text_discrete codes write find insert_or_assign compare_text
    run_memory merge to_string stoull watch_loop exec operation_name status_eq require_transition
    is_refused has_hash is_stream_name
run-ne-empty same =
    let key = orch_device_command_publication_key event.event_id in
    true-ne-false (ap (λ (d : Databases memory). has_hash memory key d.device) same)

-- Later, another client has changed another database.
abbrev later : Databases memory
later = record run { counters = run.device; acknowledged = (98 ∷ [], 97 ∷ []) ∷ [] }

process_config_repeated_example :
    process_config memory postfix (λ phase. throws Exception.runtime_error) 8 event later
    ≡ returns later
unfolding process_config postfix text_discrete codes write find insert_or_assign compare_text
    run_memory merge to_string stoull watch_loop exec operation_name status_eq require_transition
    is_refused is_stream_name is_one_of
process_config_repeated_example =
    process_config_repeated memory memory-IsLawful postfix (λ phase. returns tt)
      (λ phase. throws Exception.runtime_error) 6 8 event empty run later refl run-ne-empty refl
      refl

-- The retry of the command that timed out for the third time.
abbrev retried : Databases memory
retried = after_run (
    schedule_retry memory postfix policy (λ phase. returns tt) 9 10 (λ id. 11) event (107 ∷ [])
      (metadata (new_metadata policy (107 ∷ []) 1 9 application)) decoded empty)

schedule_retry-returns_example :
    (completed : ℕ) × (completed_retries application ≡ returns completed)
    × IsFollowedUp memory memory-IsLawful postfix policy
        (107 ∷ [])
        completed
        9
        (metadata (new_metadata policy (107 ∷ []) 1 9 application))
        empty
        retried
unfolding new_metadata find insert_or_assign text_discrete compare_text codes stoull
    connection_apply_status_from_string schedule_retry postfix write run_memory merge to_string
    watch_loop exec operation_name is_refused is_stream_name is_one_of double_delay
schedule_retry-returns_example =
    schedule_retry-returns memory memory-IsLawful postfix policy (λ phase. returns tt) 9 10
      (λ id. 11) event (107 ∷ []) 1 application _ decoded empty retried (omega arith) refl refl refl
      refl refl

-- The switch has made the connection of the event.
abbrev result_event : EventEnvelope
result_event = record event { event_id = 114 ∷ []; operation = codes "RESULT" }

abbrev result : postfix.Value
unfolding postfix
result =
    Value.field (codes "error_code") (Value.text (codes "OCS_OK"))
      (Value.field (codes "error_message") (Value.text []) Value.null)

-- The row of the connection is being applied.
abbrev in_progress : Databases memory
unfolding run_memory
in_progress = record empty {
  appl =
      run_memory empty_store
        (hmset (connection_app_key event.device event.resource_id) application);
}

abbrev settled : Databases memory
unfolding postfix run_memory
settled = after_run (
    process_settled_result memory postfix policy (λ phase. returns tt) 1 2 3 (λ id. 4) result_event
      result true in_progress)

process_settled_result-row_example :
    IsResultHandled memory memory-IsLawful postfix policy
      (λ phase. returns tt)
      1
      2
      3
      (λ id. 4)
      result_event
      result
      true
      in_progress
      settled
unfolding process_settled_result postfix text_discrete codes write find insert_or_assign
    compare_text run_memory merge to_string stoull watch_loop exec operation_name status_eq
    require_transition is_refused is_stream_name is_one_of strip_prefix
    connection_apply_status_from_string current_version current_status
process_settled_result-row_example =
    process_settled_result-row memory memory-IsLawful postfix policy (λ phase. returns tt) 1 2 3
      (λ id. 4) result_event result true in_progress settled refl refl (omega arith) refl

settled_test :
    find (codes "apply_status") (
      memory.hgetall settled.appl (connection_app_key result_event.device result_event.resource_id))
    ≡ some (codes "ACTIVE")
unfolding process_settled_result postfix text_discrete codes write find insert_or_assign
    compare_text run_memory merge to_string stoull watch_loop exec operation_name status_eq
    require_transition is_refused is_stream_name is_one_of strip_prefix
    connection_apply_status_from_string current_version current_status
    mini_ocs_nos.ConnectionStateMachine.to_string
settled_test = refl

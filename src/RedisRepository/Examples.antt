-- ===== src/RedisRepository/Examples.antt =====
-- Instances for cpp/src/redis_repository.cpp, on the server in memory.
use mini_ocs_nos.Base.{
  ℕ, zero, suc, ◌≤◌, ◌<◌, ◌≡◌, ◌≢◌, refl, sym, true, false, some, List, [], ◌∷◌, ◌++◌, arith, ◌⊎◌,
}
use mini_ocs_nos.Base.Text.{Text, codes, text_discrete, compare_text}
use mini_ocs_nos.Base.TextMap.{TextMap, find, insert_or_assign, erase}
use mini_ocs_nos.Base.Sort.{sort_by, insert_by}
use mini_ocs_nos.Base.Decimal.{to_string, stoull}
use mini_ocs_nos.Base.Outcome.{Outcome, returns, throws, Exception}
use mini_ocs_nos.DeviceTypes.{pos}
use mini_ocs_nos.RedisRepository.Events.{
  EventEnvelope, event_fields, entry_map, parse_event, validate_event,
}
use mini_ocs_nos.RedisRepository.Events.RoundTrip.{parse_event-event_fields}
use mini_ocs_nos.RedisRepository.Server.{Command, exec, hget}
use mini_ocs_nos.RedisRepository.Server.Memory.{
  is_stream_name, is_one_of, Store, memory, memory-IsLawful, empty_store, run_memory, merge,
}
use mini_ocs_nos.RedisRepository.Watch.{
  Attempt, Reply, wrote, skipped, watch_loop, is_refused, IsFaithful,
}
use mini_ocs_nos.RedisRepository.Ends.{IsLast, IsRetried, replace_hash_and_append_event_once_ends}
use mini_ocs_nos.RedisRepository.Writes.{once, replace_commands, replace_hash_and_append_event_once}
use mini_ocs_nos.RedisRepository.Writes.Versioned.{
  may_publish, check_version, publish_commands, publish_flags, versioned, hash_keys,
  put_versioned_hashes_atomically_if_marker_absent,
}
use mini_ocs_nos.RedisRepository.Writes.Counters.{
  stoll, maximum, increment_commands, record_apply_counters_once, apply_counters,
}
use mini_ocs_nos.RedisRepository.Once.{
  IsPublished, HasKinds, replace_hash_and_append_event_once-wrote,
  replace_hash_and_append_event_once_repeated,
}
use mini_ocs_nos.RedisRepository.Newest.{IsRecorded, put_versioned_hashes-wrote}
use mini_ocs_nos.RedisRepository.Latency.{last_field, max_field, record_apply_counters_once-wrote}
use mini_ocs_nos.RedisRepository.Endpoint.{
  endpoint, parse_redis_endpoint, socket_endpoint, parse_redis_endpoint_print,
}
use mini_ocs_nos.RedisRepository.Streams.{
  PendingEntry, collect_idle, scan_keys, scan_sorted, scan_pages, add_page, contains,
}
use mini_ocs_nos.RedisRepository.Claims.{take, idle_ids, collect_idle-take}
use mini_ocs_nos.RedisRepository.Scan.{IsScan, scan_keys-returns}

abbrev a : Text
a = 97 ∷ []

abbrev b : Text
b = 98 ∷ []

abbrev c : Text
c = 99 ∷ []

a_not_b : a ≢ b
a_not_b = ground arith

b_not_c : b ≢ c
b_not_c = ground arith

a_not_c : a ≢ c
a_not_c = ground arith

abbrev marker_fields : TextMap Text
marker_fields = (codes "desired_version", codes "7") ∷ []

abbrev event : EventEnvelope
event = record {
  event_schema_version = 1;
  event_id = a;
  request_id = a;
  timestamp_ns = 12;
  device = b;
  resource_type = b;
  resource_id = c;
  operation = c;
  desired_version = 7;
  payload = [];
}

parse_event-event_fields_example : parse_event (entry_map (event_fields event)) ≡ returns event
parse_event-event_fields_example = parse_event-event_fields event (omega arith)

-- Another client touches every key in the first round, and nobody does later.
abbrev rounds : Store → ℕ → Attempt memory
rounds s zero = record { watched = s; at_exec = s; touched = λ k. true }
rounds s (suc n) = record { watched = s; at_exec = s; touched = λ k. false }

rounds-IsFaithful : (s : Store) (i : ℕ) → IsFaithful memory (rounds s i)
rounds-IsFaithful s zero k h = cc
rounds-IsFaithful s (suc i) k h = (refl, refl)

-- The name of a stream.
abbrev alarms : Text
alarms = codes "OCS_ALARM_EVENTS"

kinds : HasKinds memory memory-IsLawful a marker_fields b marker_fields alarms event
unfolding is_stream_name is_one_of text_discrete codes
kinds = (refl, refl, refl)

abbrev store_of : Outcome (Reply memory) → Store
store_of (returns (wrote s)) = s
store_of _ = empty_store

-- Names what a run of a write computes with.
publish_run : (ℕ → Attempt memory) → Outcome (Reply memory)
unfolding replace_hash_and_append_event_once validate_event once watch_loop is_refused exec
    is_stream_name hash_keys replace_commands run_memory merge find insert_or_assign erase
    text_discrete compare_text codes to_string event_fields
    put_versioned_hashes_atomically_if_marker_absent versioned publish_flags publish_commands
    check_version may_publish stoull record_apply_counters_once apply_counters maximum stoll
    increment_commands
publish_run env =
    replace_hash_and_append_event_once memory a marker_fields b marker_fields alarms event env

abbrev published : Store
published = store_of (publish_run (rounds empty_store))

published_lem :
    replace_hash_and_append_event_once memory a marker_fields b marker_fields alarms event
      (rounds empty_store)
    ≡ returns (wrote published)
unfolding publish_run
published_lem = refl

replace_hash_and_append_event_once-wrote_example :
    (i : ℕ) × (i < 8)
    × IsPublished memory (rounds empty_store i).at_exec published a b marker_fields alarms event
replace_hash_and_append_event_once-wrote_example =
    replace_hash_and_append_event_once-wrote memory memory-IsLawful a marker_fields b marker_fields
      alarms event (rounds empty_store) published a_not_b kinds (cc) (rounds-IsFaithful empty_store)
      published_lem

replace_hash_and_append_event_once_repeated_example :
    replace_hash_and_append_event_once memory a marker_fields b marker_fields alarms event
      (rounds published)
    ≡ returns skipped
replace_hash_and_append_event_once_repeated_example =
    replace_hash_and_append_event_once_repeated memory memory-IsLawful a marker_fields b
      marker_fields alarms event (rounds empty_store) (rounds published) published a_not_b kinds
      (cc) (rounds-IsFaithful empty_store) published_lem refl

replace_hash_and_append_event_once_ends_example :
    ((r : Reply memory) × (i : ℕ) × (i < 8)
      × IsLast memory a (rounds empty_store) i
      × (publish_run (rounds empty_store) ≡ returns r))
    ⊎ (((i : ℕ) → i < 8 → IsRetried memory a (rounds empty_store) i)
        × (publish_run (rounds empty_store) ≡ throws Exception.runtime_error))
unfolding publish_run validate_event
replace_hash_and_append_event_once_ends_example =
    replace_hash_and_append_event_once_ends memory a (rounds empty_store) marker_fields b
      marker_fields alarms event refl

-- One hash that is recorded at version 9 and one that is not there.
abbrev recorded : Store
recorded = run_memory empty_store (Command.hmset b ((codes "desired_version", codes "9") ∷ []))

abbrev hashes : List (Text × TextMap Text)
hashes = (b, marker_fields) ∷ (c, marker_fields) ∷ []

abbrev versioned_store : Store
versioned_store = store_of (
    put_versioned_hashes_atomically_if_marker_absent memory a marker_fields hashes
      (rounds recorded))

put_versioned_hashes-wrote_example :
    (i : ℕ) × (i < 8)
    × (memory.exists (rounds recorded i).at_exec a ≡ false)
    × IsRecorded memory memory-IsLawful a hashes 7 (rounds recorded i).at_exec versioned_store
unfolding publish_run
put_versioned_hashes-wrote_example =
    put_versioned_hashes-wrote memory memory-IsLawful a marker_fields hashes (rounds recorded)
      versioned_store (codes "7") 7 refl refl refl (refl, (refl, tt))
      ((λ e. b_not_c (sym e), tt), (tt, tt)) (λ e. a_not_b (sym e), (λ e. a_not_c (sym e), tt))
      (rounds-IsFaithful recorded) refl

abbrev slow : Store
slow = run_memory empty_store (Command.hmset b ((codes "max_apply_latency_ms", codes "40") ∷ []))

abbrev counted : Store
counted = store_of (record_apply_counters_once memory a marker_fields b [] (pos 30) (rounds slow))

record_apply_counters_once-wrote_example :
    (i m : ℕ) × (i < 8)
    × (memory.exists (rounds slow i).at_exec a ≡ false)
    × (memory.exists counted a ≡ true)
    × (hget memory counted b last_field ≡ some (to_string 30))
    × (hget memory counted b max_field ≡ some (to_string m))
    × (30 ≤ m)
    × ((text : Text) (k : ℕ)
        → hget memory (rounds slow i).at_exec b max_field ≡ some text
        → stoll text ≡ returns (pos k)
        → k ≤ m)
unfolding publish_run
record_apply_counters_once-wrote_example =
    record_apply_counters_once-wrote memory memory-IsLawful a marker_fields b [] 30 (rounds slow)
      counted refl refl (λ e. a_not_b (sym e)) (cc) (rounds-IsFaithful slow) refl

parse_redis_endpoint_print_example :
    (parse_redis_endpoint (codes "tcp://" ++ (a ++ (58 ∷ to_string 6379)))
      ≡ returns (endpoint a 6379 []))
    × (parse_redis_endpoint (codes "unix://" ++ (47 ∷ b)) ≡ returns (socket_endpoint (47 ∷ b)))
    × (parse_redis_endpoint (47 ∷ b) ≡ returns (socket_endpoint (47 ∷ b)))
parse_redis_endpoint_print_example =
    parse_redis_endpoint_print a b 6379 (cc) (omega arith) (omega arith)

abbrev waiting : List PendingEntry
waiting =
    record { id = a; idle_ms = 9 }
    ∷ record { id = b; idle_ms = 3 }
    ∷ record { id = c; idle_ms = 8 }
    ∷ []

collect_idle-take_example : collect_idle 2 5 waiting ≡ take 2 (idle_ids 5 waiting)
collect_idle-take_example = collect_idle-take 2 5 waiting (omega arith)

-- Two pages that share a key.
abbrev pages : ℕ → Text → ℕ → ℕ × List Text
pages zero pattern count = (5, c ∷ a ∷ [])
pages (suc n) pattern count = (0, b ∷ a ∷ [])

scan_keys_lem : scan_keys pages a 10 ≡ returns (a ∷ b ∷ c ∷ [])
unfolding scan_keys scan_sorted scan_pages add_page contains sort_by insert_by compare_text
    text_discrete
scan_keys_lem = refl

scan_keys-returns_example : IsScan 4096 (λ cursor. pages cursor a 128) 10 (a ∷ b ∷ c ∷ [])
scan_keys-returns_example = scan_keys-returns pages a 10 (a ∷ b ∷ c ∷ []) scan_keys_lem

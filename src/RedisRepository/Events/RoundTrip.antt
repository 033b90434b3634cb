-- ===== src/RedisRepository/Events/RoundTrip.antt =====
-- eventFields and parseEvent of cpp/src/redis_repository.cpp undo one another.
use native.Mathlib.Nat.{mod-eq_of_lt}
use mini_ocs_nos.Base.{◌^◌, ◌<◌, ◌≡◌, refl, arith}
use mini_ocs_nos.Base.Text.{codes, text_discrete, compare_text}
use mini_ocs_nos.Base.TextMap.{find, insert_or_assign}
use mini_ocs_nos.Base.Decimal.RoundTrip.{stoull-to_string}
use mini_ocs_nos.Base.Outcome.{returns}
use mini_ocs_nos.RedisRepository.Events.{
  EventEnvelope, event_fields, entry_map, required, parse_event,
}

-- The numbers fit their types.
abbrev pub IsEnvelope : EventEnvelope → Type 0
IsEnvelope e =
    (e.event_schema_version < 2 ^ 32) × (e.timestamp_ns < 2 ^ 64) × (e.desired_version < 2 ^ 64)

-- Every envelope whose numbers fit their types is read back from the fields that are written for
-- it.
pub parse_event-event_fields :
    (e : EventEnvelope) → IsEnvelope e → parse_event (entry_map (event_fields e)) ≡ returns e
unfolding parse_event event_fields entry_map required find insert_or_assign text_discrete
    compare_text codes
parse_event-event_fields e h =
    rw
      (
        stoull-to_string e.event_schema_version (omega arith),
        stoull-to_string e.timestamp_ns h.1,
        stoull-to_string e.desired_version h.2,
        mod-eq_of_lt h.0,
      )
      refl

-- ===== src/RedisRepository/Events.antt =====
-- Event envelopes as stream fields (cpp/src/redis_repository.cpp).
pub mod RoundTrip
use mini_ocs_nos.Base.{
  ℕ, ◌%◌, ◌^◌, Bool, ◌||◌, not, Option, none, some, List, [], ◌∷◌, ◌==◌, if◌then◌else◌,
}
use mini_ocs_nos.Base.Text.{Text, codes}
use mini_ocs_nos.Base.TextMap.{TextMap, find, insert_or_assign}
use mini_ocs_nos.Base.Decimal.{to_string, stoull}
use mini_ocs_nos.Base.Outcome.{Outcome, returns, throws, Exception, ◌>>=◌}
use mini_ocs_nos.Device.Apply.{is_empty}

-- event_schema_version is a uint32_t, timestamp_ns and desired_version are uint64_t.
pub record EventEnvelope : Type 0 where
  pub event_schema_version : ℕ
  pub event_id : Text
  pub request_id : Text
  pub timestamp_ns : ℕ
  pub device : Text
  pub resource_type : Text
  pub resource_id : Text
  pub operation : Text
  pub desired_version : ℕ
  pub payload : Text

pub record StreamMessage : Type 0 where
  pub id : Text
  pub event : EventEnvelope

abbrev pub Fields : Type 0
Fields = List (Text × Text)

unfoldable pub event_fields : EventEnvelope → Fields
event_fields event =
    (codes "event_schema_version", to_string event.event_schema_version)
    ∷ (codes "event_id", event.event_id)
    ∷ (codes "request_id", event.request_id)
    ∷ (codes "timestamp_ns", to_string event.timestamp_ns)
    ∷ (codes "device", event.device)
    ∷ (codes "resource_type", event.resource_type)
    ∷ (codes "resource_id", event.resource_id)
    ∷ (codes "operation", event.operation)
    ∷ (codes "desired_version", to_string event.desired_version)
    ∷ (codes "payload", event.payload)
    ∷ []

-- The fields of a stream entry as the client reads them into a map.
unfoldable pub entry_map : Fields → TextMap Text
entry_map [] = []
entry_map ((name, value) ∷ fields) = insert_or_assign name value (entry_map fields)

-- The lambda `required`.
unfoldable pub required : TextMap Text → Text → Outcome Text
required fields name = elim (find name fields) [
  | none ↦ throws Exception.runtime_error
  | some value ↦ returns value
]

unfoldable pub parse_event : TextMap Text → Outcome EventEnvelope
unfolding required
parse_event fields = do
  schema_text ← required fields (codes "event_schema_version")
  schema ← stoull schema_text
  event_id ← required fields (codes "event_id")
  request_id ← required fields (codes "request_id")
  timestamp_text ← required fields (codes "timestamp_ns")
  timestamp ← stoull timestamp_text
  device ← required fields (codes "device")
  resource_type ← required fields (codes "resource_type")
  resource_id ← required fields (codes "resource_id")
  operation ← required fields (codes "operation")
  version_text ← required fields (codes "desired_version")
  version ← stoull version_text
  payload ← required fields (codes "payload")
  returns (record {
    event_schema_version = schema % 2 ^ 32;
    event_id = event_id;
    request_id = request_id;
    timestamp_ns = timestamp;
    device = device;
    resource_type = resource_type;
    resource_id = resource_id;
    operation = operation;
    desired_version = version;
    payload = payload;
  })

unfoldable pub validate_event : EventEnvelope → Outcome (Unit {0})
validate_event event =
    if not (event.event_schema_version == 1)
    then throws Exception.invalid_argument
    else if is_empty event.event_id
        || is_empty event.request_id
        || is_empty event.device
        || is_empty event.resource_type
        || is_empty event.resource_id
        || is_empty event.operation
    then throws Exception.invalid_argument
    else returns tt

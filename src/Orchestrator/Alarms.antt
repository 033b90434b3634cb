-- ===== src/Orchestrator/Alarms.antt =====
-- The alarms of apply timeouts in cpp/src/orchestrator_service.cpp. `now` is the time that the
-- clock shows.
use mini_ocs_nos.Base.{
  ℕ, Bool, true, false, Option, none, some, List, [], ◌∷◌, ◌++◌, ◌&&◌, if◌then◌else◌,
}
use mini_ocs_nos.Base.Text.{Text, codes}
use mini_ocs_nos.Base.TextMap.{TextMap, find, insert_or_assign}
use mini_ocs_nos.Base.Decimal.{to_string, stoull}
use mini_ocs_nos.Base.Outcome.{Outcome, returns, ◌>>=◌}
use mini_ocs_nos.DeviceTypes.{ℤ, pos, negsuc}
use mini_ocs_nos.Errors
use mini_ocs_nos.Errors.{ErrorCode}
use mini_ocs_nos.RedisKeys.Tables.{active_alarm_key, apply_timeout_alarm_id, device_counters_key}
use mini_ocs_nos.RedisKeys.Orch.{
  orch_alarm_publication_key, orch_alarm_clear_publication_key, orch_alarm_counter_publication_key,
}
use mini_ocs_nos.RedisRepository.Events.{EventEnvelope}
use mini_ocs_nos.RedisRepository.Server.{Server}
use mini_ocs_nos.RedisRepository.Writes.{get_hash, has_no_fields}
use mini_ocs_nos.Json.{JsonLibrary}
use mini_ocs_nos.Orchestrator.Decode.{is_text}
use mini_ocs_nos.Orchestrator.Databases.{
  Databases, alarm_events, row, value_at, publish_row, publish_count,
}

-- The value of a field, or a default.
abbrev pub or_default : Option Text → Text → Text
or_default none default = default
or_default (some value) default = value

-- The row of an alarm that is raised while `active` is the row of the alarm so far.
unfoldable pub raised_row : EventEnvelope → Text → ℕ → TextMap Text → TextMap Text
raised_row result_event error_message now active = row (
    (codes "id", apply_timeout_alarm_id result_event.resource_id)
    ∷ (codes "active", codes "true")
    ∷ (codes "severity", codes "MAJOR")
    ∷ (codes "resource_type", codes "connection")
    ∷ (codes "resource_id", result_event.resource_id)
    ∷ (codes "desired_version", to_string result_event.desired_version)
    ∷ (codes "error_code", Errors.to_string ErrorCode.apply_timeout)
    ∷ (codes "error_message", error_message)
    ∷ (
      codes "activation_id",
      or_default (find (codes "activation_id") active) result_event.event_id,
    )
    ∷ (codes "first_raised_ns", or_default (find (codes "first_raised_ns") active) (to_string now))
    ∷ (codes "last_change_ns", to_string now)
    ∷ [])

unfoldable pub raised_marker : EventEnvelope → TextMap Text → TextMap Text
raised_marker result_event active = row (
    (codes "alarm_id", apply_timeout_alarm_id result_event.resource_id)
    ∷ (codes "desired_version", to_string result_event.desired_version)
    ∷ (
      codes "activation_id",
      or_default (find (codes "activation_id") active) result_event.event_id,
    )
    ∷ (codes "activated", if has_no_fields active then codes "true" else codes "false")
    ∷ [])

unfoldable pub alarm_event : EventEnvelope → Text → Text → ℕ → ℕ → Text → EventEnvelope
alarm_event result_event event_id operation now desired_version payload = record {
  event_schema_version = 1;
  event_id = event_id;
  request_id = result_event.request_id;
  timestamp_ns = now;
  device = result_event.device;
  resource_type = codes "alarm";
  resource_id = apply_timeout_alarm_id result_event.resource_id;
  operation = operation;
  desired_version = desired_version;
  payload = payload;
}

unfoldable pub cleared_row : ℕ → TextMap Text → TextMap Text
cleared_row now active =
    insert_or_assign (codes "last_change_ns") (to_string now)
      (insert_or_assign (codes "active") (codes "false") active)

module _ (S : Server) (J : JsonLibrary) where
  abbrev text_values : TextMap Text → List (Text × J.Value)
  text_values [] = []
  text_values ((k, v) ∷ fields) = (k, J.from_text v) ∷ text_values fields

  unfoldable pub alarm_payload : TextMap Text → Outcome Text
  alarm_payload fields = J.dump (J.object (text_values fields))

  -- The count of an alarm, which its raising and its clearing change once each.
  unfoldable pub count_alarm :
      EventEnvelope → Text → Text → Bool → ℤ → Databases S → Outcome (Databases S)
  unfolding publish_count
  count_alarm result_event activation_id version clear change dbs =
      let alarm_id = apply_timeout_alarm_id result_event.resource_id in
      publish_count S
        (orch_alarm_counter_publication_key result_event.device alarm_id activation_id clear)
        (row ((codes "alarm_id", alarm_id) ∷ (codes "desired_version", version) ∷ []))
        (device_counters_key result_event.device) ((codes "active_alarms", change) ∷ [])
        dbs.counters
      >>= λ d. returns (record dbs { counters = d })

  -- The part for an event whose marker is not there.
  unfoldable pub raise_alarm :
      EventEnvelope → Text → ℕ → TextMap Text → Databases S → Outcome (Databases S)
  unfolding raised_row raised_marker alarm_event alarm_payload publish_row
  raise_alarm result_event error_message now active dbs =
      alarm_payload (raised_row result_event error_message now active) >>= λ payload.
      publish_row S (orch_alarm_publication_key result_event.event_id)
        (raised_marker result_event active)
        (active_alarm_key result_event.device (apply_timeout_alarm_id result_event.resource_id))
        (raised_row result_event error_message now active) alarm_events
        (alarm_event result_event result_event.event_id (codes "UPSERT") now
          result_event.desired_version payload)
        dbs.alarm
      >>= λ d. returns (record dbs { alarm = d })

  unfoldable pub count_raised : EventEnvelope → Databases S → Outcome (Databases S)
  unfolding get_hash count_alarm
  count_raised result_event dbs =
      let marker = get_hash S (orch_alarm_publication_key result_event.event_id) dbs.alarm in
      value_at (codes "activated") marker >>= λ activated.
      if is_text activated (codes "true")
      then value_at (codes "activation_id") marker >>= (λ activation_id.
        count_alarm result_event activation_id (to_string result_event.desired_version) false
          (pos 1) dbs)
      else returns dbs

  unfoldable pub publish_timeout_alarm :
      EventEnvelope → Text → ℕ → Databases S → Outcome (Databases S)
  unfolding get_hash raise_alarm count_raised
  publish_timeout_alarm result_event error_message now dbs =
      let marker = get_hash S (orch_alarm_publication_key result_event.event_id) dbs.alarm in
      let active =
        get_hash S
          (active_alarm_key result_event.device (apply_timeout_alarm_id result_event.resource_id))
          dbs.alarm in
      (if has_no_fields marker
        then raise_alarm result_event error_message now active dbs
        else returns dbs)
      >>= count_raised result_event

  unfoldable pub clear_alarm :
      EventEnvelope → ℕ → TextMap Text → Databases S → Outcome (Databases S)
  unfolding cleared_row alarm_event alarm_payload publish_row
  clear_alarm result_event now active dbs = do
    version_text ← value_at (codes "desired_version") active
    desired_version ← stoull version_text
    activation_id ← value_at (codes "activation_id") active
    payload ← alarm_payload (cleared_row now active)
    d ←
        publish_row S (orch_alarm_clear_publication_key result_event.event_id)
          (row (
            (codes "alarm_id", apply_timeout_alarm_id result_event.resource_id)
            ∷ (codes "desired_version", to_string desired_version)
            ∷ (codes "activation_id", activation_id)
            ∷ (codes "cleared", codes "true")
            ∷ []))
          (active_alarm_key result_event.device (apply_timeout_alarm_id result_event.resource_id))
          [] alarm_events
          (alarm_event result_event (result_event.event_id ++ codes ":alarm-clear") (codes "REMOVE")
            now desired_version payload)
          dbs.alarm
    returns (record dbs { alarm = d })

  unfoldable pub count_cleared : EventEnvelope → Databases S → Outcome (Databases S)
  unfolding get_hash count_alarm
  count_cleared result_event dbs =
      let marker = get_hash S (orch_alarm_clear_publication_key result_event.event_id) dbs.alarm in
      value_at (codes "desired_version") marker >>= λ version_text.
      stoull version_text >>= λ desired_version.
      value_at (codes "activation_id") marker >>= λ activation_id.
      count_alarm result_event activation_id (to_string desired_version) true (negsuc 0) dbs

  unfoldable pub clear_timeout_alarm : EventEnvelope → ℕ → Databases S → Outcome (Databases S)
  unfolding get_hash clear_alarm count_cleared
  clear_timeout_alarm result_event now dbs =
      let marker = get_hash S (orch_alarm_clear_publication_key result_event.event_id) dbs.alarm in
      let active =
        get_hash S
          (active_alarm_key result_event.device (apply_timeout_alarm_id result_event.resource_id))
          dbs.alarm in
      if has_no_fields marker && has_no_fields active
      then returns dbs
      else (if has_no_fields marker then clear_alarm result_event now active dbs else returns dbs)
        >>= count_cleared result_event

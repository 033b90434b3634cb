-- ===== src/Orchestrator/Clearing.antt =====
-- clearTimeoutAlarm of cpp/src/orchestrator_service.cpp leaves the application's database alone.
use mini_ocs_nos.Base.{ℕ, ◌≡◌, refl, ◌∙◌, Bool, true, ◌&&◌, [], ◌∷◌, ◌++◌, if◌then◌else◌}
use mini_ocs_nos.Base.Text.{Text, codes}
use mini_ocs_nos.Base.TextMap.{TextMap}
use mini_ocs_nos.Base.Decimal.{to_string, stoull}
use mini_ocs_nos.Base.Outcome.{returns, Ensures, Ensures-bind, Ensures-value, Ensures-if}
use mini_ocs_nos.RedisKeys.Tables.{active_alarm_key, apply_timeout_alarm_id, device_counters_key}
use mini_ocs_nos.RedisKeys.Orch.{
  orch_alarm_clear_publication_key, orch_alarm_counter_publication_key,
}
use mini_ocs_nos.RedisRepository.Events.{EventEnvelope}
use mini_ocs_nos.RedisRepository.Server.{Server}
use mini_ocs_nos.RedisRepository.Writes.{get_hash, has_no_fields}
use mini_ocs_nos.Json.{JsonLibrary}
use mini_ocs_nos.DeviceTypes.{ℤ, negsuc}
use mini_ocs_nos.Orchestrator.Alarms.{
  count_alarm, clear_alarm, count_cleared, clear_timeout_alarm, cleared_row, alarm_payload,
  alarm_event,
}
use mini_ocs_nos.Orchestrator.Databases.{
  Databases, alarm_events, row, value_at, publish_row, publish_count,
}

module _ (S : Server) where
  -- The application's database is as it was.
  abbrev pub KeepsAppl : Databases S → Databases S → Type 0
  KeepsAppl before after = after.appl ≡ before.appl

  module _ (J : JsonLibrary) where
    count_alarm-KeepsAppl :
        (event : EventEnvelope) (activation version : Text) (clear : Bool) (change : ℤ)
        (dbs : Databases S)
        → Ensures (KeepsAppl dbs) (count_alarm S J event activation version clear change dbs)
    unfolding count_alarm
    count_alarm-KeepsAppl event activation version clear change dbs =
        let alarm_id = apply_timeout_alarm_id event.resource_id in
        Ensures-bind
          (publish_count S
            (orch_alarm_counter_publication_key event.device alarm_id activation clear)
            (row ((codes "alarm_id", alarm_id) ∷ (codes "desired_version", version) ∷ []))
            (device_counters_key event.device) ((codes "active_alarms", change) ∷ []) dbs.counters)
          λ d e. Ensures-value refl

    clear_alarm-KeepsAppl :
        (event : EventEnvelope) (now : ℕ) (active : TextMap Text) (dbs : Databases S)
        → Ensures (KeepsAppl dbs) (clear_alarm S J event now active dbs)
    unfolding clear_alarm
    clear_alarm-KeepsAppl event now active dbs =
        Ensures-bind (value_at (codes "desired_version") active) λ text e0.
          Ensures-bind (stoull text) λ version e1.
            Ensures-bind (value_at (codes "activation_id") active) λ activation e2.
              Ensures-bind (alarm_payload S J (cleared_row now active)) λ payload e3.
                Ensures-bind
                  (publish_row S (orch_alarm_clear_publication_key event.event_id)
                    (row (
                      (codes "alarm_id", apply_timeout_alarm_id event.resource_id)
                      ∷ (codes "desired_version", to_string version)
                      ∷ (codes "activation_id", activation)
                      ∷ (codes "cleared", codes "true")
                      ∷ []))
                    (active_alarm_key event.device (apply_timeout_alarm_id event.resource_id)) []
                    alarm_events
                    (alarm_event event (event.event_id ++ codes ":alarm-clear") (codes "REMOVE") now
                      version payload)
                    dbs.alarm)
                  λ d e4. Ensures-value refl

    count_cleared-KeepsAppl :
        (event : EventEnvelope) (dbs : Databases S)
        → Ensures (KeepsAppl dbs) (count_cleared S J event dbs)
    unfolding count_cleared
    count_cleared-KeepsAppl event dbs =
        let marker = get_hash S (orch_alarm_clear_publication_key event.event_id) dbs.alarm in
        Ensures-bind (value_at (codes "desired_version") marker) λ text e0.
          Ensures-bind (stoull text) λ version e1.
            Ensures-bind (value_at (codes "activation_id") marker) λ activation e2.
              count_alarm-KeepsAppl event activation (to_string version) true (negsuc 0) dbs

    pub clear_timeout_alarm-KeepsAppl :
        (event : EventEnvelope) (now : ℕ) (dbs : Databases S)
        → Ensures (KeepsAppl dbs) (clear_timeout_alarm S J event now dbs)
    unfolding clear_timeout_alarm
    clear_timeout_alarm-KeepsAppl event now dbs =
        let marker = get_hash S (orch_alarm_clear_publication_key event.event_id) dbs.alarm in
        let active =
          get_hash S (active_alarm_key event.device (apply_timeout_alarm_id event.resource_id))
            dbs.alarm in
        let cleared =
          if has_no_fields marker then clear_alarm S J event now active dbs else returns dbs in
        Ensures-if (has_no_fields marker && has_no_fields active) (λ e. Ensures-value refl)
          λ e. Ensures-bind cleared λ d h. record {
            holds = λ after k.
                (count_cleared-KeepsAppl event d).holds after k
                ∙ (Ensures-if {P = KeepsAppl dbs} (has_no_fields marker)
                      (λ e'. clear_alarm-KeepsAppl event now active dbs)
                      (λ e'. Ensures-value refl)).holds
                    d h;
          }

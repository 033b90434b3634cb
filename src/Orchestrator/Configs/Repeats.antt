-- ===== src/Orchestrator/Configs/Repeats.antt =====
-- A configuration event that processConfigOne of cpp/src/orchestrator_service.cpp has handled is
-- not handled again.
use mini_ocs_nos.Base.{ℕ, ◌≡◌, ◌≢◌, refl, true, false, Option, none, some, [], ◌∷◌, ◌⊎◌, inl, inr}
use mini_ocs_nos.Base.Text.{Text, codes}
use mini_ocs_nos.Base.Outcome.{
  Outcome, returns, ◌>>◌, Ensures, Ensures-bind, Ensures-value, Ensures-if,
}
use mini_ocs_nos.Reconciler.{DeviceCommandBatch}
use mini_ocs_nos.RedisKeys.Tables.{connection_app_key, connection_device_key}
use mini_ocs_nos.RedisKeys.Orch.{
  orch_application_publication_key, orch_device_state_publication_key,
  orch_device_command_publication_key,
}
use mini_ocs_nos.RedisRepository.Events.{EventEnvelope}
use mini_ocs_nos.RedisRepository.Server.{Server, IsLawful}
use mini_ocs_nos.Json.{JsonLibrary}
use mini_ocs_nos.DeviceCommand.{encode_device_command}
use mini_ocs_nos.Orchestrator.Databases.{
  Databases, keyed, device_commands, row, publish_versioned, publish_event, has_hash,
}
use mini_ocs_nos.RedisRepository.Writes.{get_hash}
use mini_ocs_nos.Orchestrator.Publications.{insert_or_assign-ne-nil, publish_event-marked}
use mini_ocs_nos.Orchestrator.Configs.{
  config_command_id, config_marker, prepared_batch, command_rows, command_event, publish_batch,
  process_config,
}

module _ (S : Server) (L : IsLawful S) where
  -- Nothing was done, or the command was published.
  abbrev pub IsHandled : EventEnvelope → Databases S → Databases S → Type 0
  IsHandled event before after =
      (after ≡ before)
      ⊎ (has_hash S (orch_device_command_publication_key event.event_id) after.device ≡ true)

  module _ (J : JsonLibrary) (after_phase : Text → Outcome (Unit {0})) (now : ℕ)
      (event : EventEnvelope)
      (hashed : S.is_stream (orch_device_command_publication_key event.event_id) ≡ false) where
    publish_batch-IsHandled :
        (batch : DeviceCommandBatch) (before dbs : Databases S)
        → Ensures (IsHandled event before) (publish_batch S J after_phase now event batch dbs)
    unfolding publish_batch
    publish_batch-IsHandled batch before dbs =
        let p = orch_device_command_publication_key event.event_id in
        let fields = row (
          (codes "event_id", event.event_id)
          ∷ (codes "command_id", config_command_id event)
          ∷ []) in
        Ensures-bind (command_rows S J event dbs.appl batch.commands) λ rows e1.
          Ensures-bind
            (publish_versioned S (orch_application_publication_key event.event_id)
              (config_marker event) (keyed (connection_app_key event.device) rows) dbs.appl)
            λ appl e2. Ensures-bind (after_phase (codes "application")) λ u1 e3.
              Ensures-bind
                (publish_versioned S (orch_device_state_publication_key event.event_id)
                  (config_marker event) (keyed (connection_device_key event.device) rows)
                  dbs.device)
                λ device e4. Ensures-bind (after_phase (codes "device-state")) λ u2 e5.
                  Ensures-bind (encode_device_command J batch) λ payload e6.
                    Ensures-bind
                      (publish_event S p fields device_commands
                        (command_event S J event batch now payload) device)
                      λ commanded e7. Ensures-bind (after_phase (codes "command")) λ u3 e8.
                        Ensures-value (
                          inr (
                            (publish_event-marked S L p fields device_commands
                                (command_event S J event batch now payload) device hashed
                                (insert_or_assign-ne-nil _ _ _)).holds
                              commanded e7))

    found_batch-IsHandled :
        (dbs : Databases S) (found : Option (DeviceCommandBatch × Databases S))
        → Ensures (IsHandled event dbs) (elim found [
          | none ↦ returns dbs
          | some (batch, prepared) ↦
              after_phase (codes "prepared")
              >> publish_batch S J after_phase now event batch prepared
        ])
    found_batch-IsHandled dbs none = Ensures-value (inl refl)
    found_batch-IsHandled dbs (some (batch, prepared)) =
        Ensures-bind (after_phase (codes "prepared"))
          λ u e. publish_batch-IsHandled batch dbs prepared

    process_config-IsHandled :
        (dbs : Databases S)
        → Ensures (IsHandled event dbs) (process_config S J after_phase now event dbs)
    unfolding process_config
    process_config-IsHandled dbs =
        Ensures-if (has_hash S (orch_device_command_publication_key event.event_id) dbs.device)
          (λ e. Ensures-value (inl refl))
          λ e.
            Ensures-bind (prepared_batch S J event dbs) λ found e'. found_batch-IsHandled dbs found

  -- Where a configuration event has been handled with an effect, no database is changed by
  -- handling it again: at any other time, with any other function for the phases, and whatever
  -- the databases have become, as long as the key of the publication still holds what it held.
  -- That key is not one of a stream.
  pub process_config_repeated :
      (J : JsonLibrary) (after_phase after_phase' : Text → Outcome (Unit {0})) (now now' : ℕ)
      (event : EventEnvelope) (before after later : Databases S)
      → process_config S J after_phase now event before ≡ returns after
      → after ≢ before
      → S.is_stream (orch_device_command_publication_key event.event_id) ≡ false
      → S.hgetall later.device (orch_device_command_publication_key event.event_id)
        ≡ S.hgetall after.device (orch_device_command_publication_key event.event_id)
      → process_config S J after_phase' now' event later ≡ returns later
  unfolding process_config has_hash get_hash
  process_config_repeated J after_phase after_phase' now now' event before after later h changed
        hashed kept =
      elim ((process_config-IsHandled J after_phase now event hashed before).holds after h) [
        | inl same ↦ absurd (changed same)
        | inr there ↦ rw kept (rw there refl)
      ]

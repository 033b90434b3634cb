-- ===== src/Orchestrator/Decode/WellFormed.antt =====
-- The commands that cpp/src/orchestrator_service.cpp decodes from configuration events.
use mini_ocs_nos.Base.{ℕ, ◌≤◌, ◌≡◌, ◌≢◌, refl, true, List, [], ◌∷◌, arith, All, not, ◌||◌, ◌==◌}
use mini_ocs_nos.Base.Text.{Text, codes}
use mini_ocs_nos.Base.Outcome.{
  returns, Ensures, Ensures-bind, Ensures-value, Ensures-throws, Ensures-if,
}
use mini_ocs_nos.DeviceTypes.{ConnectionCommand}
use mini_ocs_nos.Reconciler.{DeviceCommandBatch}
use mini_ocs_nos.RedisRepository.Events.{EventEnvelope}
use mini_ocs_nos.Json.{JsonLibrary}
use mini_ocs_nos.DeviceCommand.{number_of, decode_device_command}
use mini_ocs_nos.DeviceCommand.Ports.{
  IsPort, HasPorts, port_of-IsPort, decode_device_command-IsWellFormed,
}
use mini_ocs_nos.Orchestrator.Decode.{
  is_text, has_version, decode_port, decode_upsert, decode_config_event, decode_batch,
  decode_config_batch_event,
}

-- The command has the version and the ports that it should.
abbrev pub IsFor : ℕ → ConnectionCommand → Type 0
IsFor version command = (command.desired_version ≡ version) × HasPorts command

abbrev pub IsRequest : EventEnvelope → DeviceCommandBatch → Type 0
IsRequest event batch =
    All (IsFor event.desired_version) batch.commands
    × (batch.commands ≢ [])
    × (1 ≤ event.desired_version)

has_version-IsFor :
    (version : ℕ) (cs : List ConnectionCommand)
    → has_version version cs ≡ true
    → All HasPorts cs
    → All (IsFor version) cs
unfolding has_version
has_version-IsFor version [] h p = tt
has_version-IsFor version (c ∷ cs) h p =
    ((ground arith, p.0), has_version-IsFor version cs (ground arith) p.1)

module _ (J : JsonLibrary) where
  decode_port-IsPort : (v : J.Value) (name : Text) → Ensures IsPort (decode_port J v name)
  unfolding decode_port
  decode_port-IsPort v name = Ensures-bind (J.at v name) λ value e.
      Ensures-bind (number_of J value)
        λ parsed e'. record { holds = λ p h. port_of-IsPort parsed p h }

  decode_upsert-IsFor :
      (event : EventEnvelope) → Ensures (IsFor event.desired_version) (decode_upsert J event)
  unfolding decode_upsert
  decode_upsert-IsFor event = Ensures-bind (J.parse event.payload) λ v e.
      Ensures-bind (decode_port J v (codes "input_port")) λ i e1.
        Ensures-bind (decode_port J v (codes "output_port")) λ o e2. Ensures-value (
          refl,
          (
            (decode_port-IsPort v (codes "input_port")).holds i e1,
            (decode_port-IsPort v (codes "output_port")).holds o e2,
          ),
        )

  abbrev IsValid : EventEnvelope → ConnectionCommand → Type 0
  IsValid event command = IsFor event.desired_version command × (1 ≤ event.desired_version)

  decode_config_event-IsValid :
      (event : EventEnvelope) → Ensures (IsValid event) (decode_config_event J event)
  unfolding decode_config_event
  decode_config_event-IsValid event =
      Ensures-if (not (is_text event.resource_type (codes "connection"))) (λ e. Ensures-throws)
        λ e0.
          Ensures-if (event.desired_version == 0) (λ e. Ensures-throws)
            λ positive.
              Ensures-if (is_text event.operation (codes "REMOVE"))
                (λ e. Ensures-value ((refl, (refl, refl)), ground arith))
                λ e1.
                  Ensures-if (not (is_text event.operation (codes "UPSERT"))) (λ e. Ensures-throws)
                    λ e2. record {
                      holds = λ c h. ((decode_upsert-IsFor event).holds c h, ground arith);
                    }

  decode_batch-IsFor :
      (event : EventEnvelope)
      → Ensures
          (λ batch. All (IsFor event.desired_version) batch.commands × (batch.commands ≢ []))
          (decode_batch J event)
  unfolding decode_batch
  decode_batch-IsFor event = Ensures-bind (decode_device_command J event.payload) λ batch e.
      Ensures-if (has_version event.desired_version batch.commands)
        (λ same.
          let (p, some_command) =
            (decode_device_command-IsWellFormed J event.payload).holds batch e in
          Ensures-value
            (has_version-IsFor event.desired_version batch.commands same p, some_command))
        (λ e'. Ensures-throws)

  request : (event : EventEnvelope) → Ensures (IsRequest event) (decode_config_batch_event J event)
  unfolding decode_config_batch_event
  request event =
      Ensures-if (is_text event.resource_type (codes "connection"))
        (λ e. Ensures-bind (decode_config_event J event) λ c h.
          let (p, positive) = (decode_config_event-IsValid event).holds c h in
          Ensures-value ((p, tt), (λ x. cc), positive))
        (λ e.
          Ensures-if
            (not (is_text event.resource_type (codes "connection-batch"))
              || not (is_text event.operation (codes "APPLY_BATCH")))
            (λ e0. Ensures-throws)
            λ e0.
              Ensures-if (event.desired_version == 0) (λ e1. Ensures-throws)
                λ positive. record {
                  holds = λ b h.
                      let (p, some_command) = (decode_batch-IsFor event).holds b h in
                      (p, some_command, ground arith);
                })

  -- A batch that is decoded from a configuration event is not empty, the event has a positive
  -- version, and every command of the batch has that version and either removes a connection or
  -- has two ports from 1 to 65535.
  pub decode_config_batch_event-IsRequest :
      (event : EventEnvelope) (batch : DeviceCommandBatch)
      → decode_config_batch_event J event ≡ returns batch
      → IsRequest event batch
  decode_config_batch_event-IsRequest event batch h = (request event).holds batch h

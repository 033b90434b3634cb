-- ===== src/Orchestrator/Timeouts/Schedules.antt =====
-- handleTimeoutResult of cpp/src/orchestrator_service.cpp schedules at most max_retries retries.
use mini_ocs_nos.Base.{
  ℕ, suc, ◌<◌, ◌^◌, ◌≡◌, refl, ◌≢◌, ap, subst, true, false, some, [], ◌∷◌, ◌++◌, arith, ◌⊎◌, inl,
  inr,
}
use mini_ocs_nos.Base.Text.{Text, codes, text_discrete}
use mini_ocs_nos.Base.TextMap.{TextMap, find}
use mini_ocs_nos.Base.Decimal.{to_string, stoull}
use mini_ocs_nos.Base.Decimal.RoundTrip.{stoull-to_string}
use mini_ocs_nos.Base.Outcome.{Outcome, returns, Ensures, Ensures-bind, Ensures-value, Ensures-if}
use mini_ocs_nos.Reconciler.{DeviceCommandBatch}
use mini_ocs_nos.RedisKeys.Orch.{orch_retry_publication_key}
use mini_ocs_nos.RedisRepository.Events.{EventEnvelope, event_fields}
use mini_ocs_nos.RedisRepository.Server.{Server, IsLawful}
use mini_ocs_nos.Json.{JsonLibrary}
use mini_ocs_nos.Orchestrator.{ApplyRetryPolicy}
use mini_ocs_nos.Orchestrator.Decode.{is_text}
use mini_ocs_nos.Orchestrator.Databases.{
  Databases, device_retries, value_at, publish_event, has_hash,
}
use mini_ocs_nos.Orchestrator.Publications.{
  insert_or_assign-ne-nil, publish_event-marked, publish_event-appended,
}
use mini_ocs_nos.Orchestrator.Timeouts.{
  retry_payload, scheduled_marker, scheduled_event, publish_retry, schedule_retry,
}
use mini_ocs_nos.Orchestrator.Timeouts.Metadata.{completed_retries, new_metadata}
use mini_ocs_nos.Orchestrator.Timeouts.Bounds.{IsScheduled, IsGivenUp, new_metadata-returns}

is_text_true : (text : Text) → text ≡ codes "true" → is_text text (codes "true") ≢ false
unfolding text_discrete codes
is_text_true text e h =
    let same : is_text (codes "true") (codes "true") ≡ false =
      subst (λ x. is_text x (codes "true") ≡ false) e h in
    cc

is_text_false : (text : Text) → text ≡ codes "false" → is_text text (codes "true") ≢ true
unfolding text_discrete codes
is_text_false text e h =
    let same : is_text (codes "false") (codes "true") ≡ true =
      subst (λ x. is_text x (codes "true") ≡ true) e h in
    cc

module _ (S : Server) where
  -- The stream of the retries has one more entry, a retry event of the command with the number,
  -- and the retry of the command is marked as published.
  abbrev pub IsPublished : Text → ℕ → Databases S → Databases S → Type 0
  IsPublished command_id number before after =
      (retry : EventEnvelope) × (retry.event_id ≡ command_id ++ codes ":retry:" ++ to_string number)
      × (retry.operation ≡ codes "RETRY")
      × (S.entries after.device device_retries
          ≡ S.entries before.device device_retries ++ (event_fields retry ∷ []))
      × (has_hash S (orch_retry_publication_key command_id) after.device ≡ true)

  module _ (L : IsLawful S) (J : JsonLibrary) where
    publish_retry-IsPublished :
        (event : EventEnvelope) (command_id : Text) (now number : ℕ) (metadata : TextMap Text)
        (batch : DeviceCommandBatch) (dbs : Databases S)
        → number < 2 ^ 64
        → find (codes "retry_attempt") metadata ≡ some (to_string number)
        → S.is_stream (orch_retry_publication_key command_id) ≡ false
        → S.is_stream device_retries ≡ true
        → S.exists dbs.device (orch_retry_publication_key command_id) ≡ false
        → Ensures
            (IsPublished command_id number dbs)
            (publish_retry S J event command_id now metadata batch dbs)
    unfolding publish_retry
    publish_retry-IsPublished event command_id now number metadata batch dbs small named hashed
          streamed missing =
        Ensures-bind (value_at (codes "retry_attempt") metadata) λ text e0.
          Ensures-bind (stoull text) λ attempt e1.
            let same : attempt ≡ number = ground (arith, stoull-to_string number small) in
            Ensures-bind (value_at (codes "next_retry_at_ns") metadata) λ time e2.
              Ensures-bind (stoull time) λ not_before e3.
                Ensures-bind (retry_payload S J batch command_id attempt not_before) λ payload e4.
                  let key = orch_retry_publication_key command_id in
                  let marker = scheduled_marker S J event command_id attempt in
                  let retry = scheduled_event S J event command_id now attempt batch payload in
                  Ensures-bind (publish_event S key marker device_retries retry dbs.device) λ d e5.
                    Ensures-value (
                      retry,
                      ap (λ n. command_id ++ codes ":retry:" ++ to_string n) same,
                      refl,
                      (publish_event-appended S L key marker device_retries retry dbs.device
                            streamed missing).holds
                          d e5,
                      (publish_event-marked S L key marker device_retries retry dbs.device hashed
                            (insert_or_assign-ne-nil _ _ _)).holds
                          d e5,
                    )

    -- What follows a timeout with a number of completed retries.
    abbrev pub IsFollowedUp :
        ApplyRetryPolicy → Text → ℕ → ℕ → TextMap Text → Databases S → Databases S → Type 0
    IsFollowedUp policy command_id completed now metadata before after =
        (IsScheduled policy completed now metadata
          × IsPublished command_id (suc completed) before after)
        ⊎ (IsGivenUp policy completed metadata × (after ≡ before))

    schedules :
        (policy : ApplyRetryPolicy) (after_phase : Text → Outcome (Unit {0}))
        (retry_now event_now : ℕ) (alarm_now : Text → ℕ) (event : EventEnvelope) (command_id : Text)
        (metadata : TextMap Text) (batch : DeviceCommandBatch) (before : Databases S)
        → find (codes "retry_scheduled") metadata ≡ some (codes "true")
        → (P : Databases S → Type 0)
        → Ensures P (publish_retry S J event command_id event_now metadata batch before)
        → Ensures P (
            schedule_retry S J policy after_phase retry_now event_now alarm_now event command_id
              metadata batch before)
    unfolding schedule_retry
    schedules policy after_phase retry_now event_now alarm_now event command_id metadata batch
          before e P published =
        Ensures-bind (value_at (codes "retry_scheduled") metadata) λ text e0.
          let same : text ≡ codes "true" = ground arith in
          let publish = publish_retry S J event command_id event_now metadata batch before in
          Ensures-if (is_text text (codes "true"))
            (λ e1. Ensures-bind publish λ done e2.
              Ensures-bind (after_phase (codes "timeout-retry"))
                λ u e3. Ensures-value (published.holds done e2))
            (λ e1. absurd (is_text_true text same e1))

    schedules_none :
        (policy : ApplyRetryPolicy) (after_phase : Text → Outcome (Unit {0}))
        (retry_now event_now : ℕ) (alarm_now : Text → ℕ) (event : EventEnvelope) (command_id : Text)
        (metadata : TextMap Text) (batch : DeviceCommandBatch) (before : Databases S)
        → find (codes "retry_scheduled") metadata ≡ some (codes "false")
        → Ensures
            (λ after. after ≡ before)
            (schedule_retry S J policy after_phase retry_now event_now alarm_now event command_id
              metadata batch before)
    unfolding schedule_retry
    schedules_none policy after_phase retry_now event_now alarm_now event command_id metadata batch
          before e =
        Ensures-bind (value_at (codes "retry_scheduled") metadata) λ text e0.
          let same : text ≡ codes "false" = ground arith in
          Ensures-if (is_text text (codes "true")) (λ e1. absurd (is_text_false text same e1))
            (λ e1. Ensures-value refl)

    -- Where a timeout is recorded anew, for a row with a number of completed retries, and its retry
    -- is not published yet: if fewer than max_retries are completed, the recorded status is
    -- RETRY_WAIT, and scheduling appends exactly one event to the stream of the retries, for the
    -- next retry, and marks the retry as published; otherwise the recorded status is FAILED, and
    -- scheduling changes no database. The key of the marker is not one of a stream, the stream's
    -- is, and max_retries is a uint64_t.
    pub schedule_retry-returns :
        (policy : ApplyRetryPolicy) (after_phase : Text → Outcome (Unit {0}))
        (retry_now event_now : ℕ) (alarm_now : Text → ℕ) (event : EventEnvelope) (command_id : Text)
        (version : ℕ) (first metadata : TextMap Text) (batch : DeviceCommandBatch)
        (before after : Databases S)
        → policy.max_retries < 2 ^ 64
        → S.is_stream (orch_retry_publication_key command_id) ≡ false
        → S.is_stream device_retries ≡ true
        → S.exists before.device (orch_retry_publication_key command_id) ≡ false
        → new_metadata policy command_id version retry_now first ≡ returns (some metadata)
        → schedule_retry S J policy after_phase retry_now event_now alarm_now event command_id
            metadata batch before
          ≡ returns after
        → (completed : ℕ) × (completed_retries first ≡ returns completed)
          × IsFollowedUp policy command_id completed retry_now metadata before after
    schedule_retry-returns policy after_phase retry_now event_now alarm_now event command_id version
          first metadata batch before after small hashed streamed missing h run =
        let (completed, e, cases) =
          new_metadata-returns policy command_id version retry_now first metadata h in
        (
          completed,
          e,
          elim cases [
            | inl scheduled ↦
                let published =
                  publish_retry-IsPublished event command_id event_now (suc completed) metadata
                    batch before (omega arith) scheduled.3 hashed streamed missing in
                inl (
                  scheduled,
                  (schedules policy after_phase retry_now event_now alarm_now event command_id
                        metadata batch before scheduled.1
                        (IsPublished command_id (suc completed) before) published).holds
                      after run,
                )
            | inr given_up ↦ inr (
              given_up,
              (schedules_none policy after_phase retry_now event_now alarm_now event command_id
                    metadata batch before given_up.1).holds
                  after run,
            )
          ],
        )

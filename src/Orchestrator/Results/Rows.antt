-- ===== src/Orchestrator/Results/Rows.antt =====
-- What processResultOne of cpp/src/orchestrator_service.cpp leaves in the row of a connection in
-- the application's database.
use mini_ocs_nos.Base.{
  ℕ, ◌<◌, ◌^◌, ◌≡◌, ◌≢◌, refl, ap, ◌∙◌, Bool, true, false, ◌&&◌, Option, none, some, [], ◌∷◌, arith,
  ◌⊎◌, inl, inr, Bool-cases, if◌then◌else◌,
}
use mini_ocs_nos.Base.Text.{Text, codes, text_discrete, compare_text}
use mini_ocs_nos.Base.TextMap.{TextMap, find, insert_or_assign, find-insert_or_assign}
use mini_ocs_nos.Base.Decimal.{to_string, stoull}
use mini_ocs_nos.Base.Decimal.RoundTrip.{stoull-to_string}
use mini_ocs_nos.Base.Outcome.{
  Outcome, returns, ◌>>=◌, ◌>>◌, Ensures, Ensures-bind, Ensures-value, Ensures-if,
}
use mini_ocs_nos.ConnectionStateMachine
use mini_ocs_nos.ConnectionStateMachine.{ConnectionApplyStatus, absent, status_eq}
use mini_ocs_nos.RedisKeys.Tables.{connection_app_key}
use mini_ocs_nos.RedisKeys.Orch.{
  orch_result_application_publication_key, orch_result_device_publication_key,
}
use mini_ocs_nos.RedisRepository.Events.{EventEnvelope}
use mini_ocs_nos.RedisRepository.Server.{Server, IsLawful, hget}
use mini_ocs_nos.RedisRepository.Writes.{get_hash, has_no_fields}
use mini_ocs_nos.Json.{JsonLibrary}
use mini_ocs_nos.Orchestrator.{ApplyRetryPolicy}
use mini_ocs_nos.Orchestrator.Decode.{current_status, current_version}
use mini_ocs_nos.Orchestrator.Alarms.{clear_timeout_alarm}
use mini_ocs_nos.Orchestrator.Replacements.{IsNewer, IsReplaced, publish_versioned-IsReplaced}
use mini_ocs_nos.Orchestrator.Clearing.{KeepsAppl, clear_timeout_alarm-KeepsAppl}
use mini_ocs_nos.Orchestrator.Publications.{has_no_fields-nil}
use mini_ocs_nos.Orchestrator.Databases.{Databases, publish_versioned, has_hash}
use mini_ocs_nos.Orchestrator.Results.{
  result_marker, app_key, device_key, publish_result, apply_result, process_settled_result,
}
use mini_ocs_nos.Orchestrator.Results.Decision.{decide, result_row}
use mini_ocs_nos.Orchestrator.Results.Statuses.{IsOutcome, IsLegal, decide-returns}

abbrev fifth : Text → ℕ
fifth (a ∷ b ∷ c ∷ d ∷ e ∷ s) = e
fifth _ = 0

module _ (S : Server) where
  result_row-find :
      (success : Bool) (next : ConnectionApplyStatus) (error_code error_message : Text)
      (application : TextMap Text)
      → find (codes "apply_status") (result_row success next error_code error_message application)
        ≡ some (ConnectionStateMachine.to_string next)
  unfolding result_row text_discrete codes
  result_row-find true next error_code error_message application =
      rw
        (
          find-insert_or_assign (codes "failed_command_id") (codes "apply_status"),
          find-insert_or_assign (codes "next_retry_at_ns") (codes "apply_status"),
          find-insert_or_assign (codes "retry_attempt") (codes "apply_status"),
          find-insert_or_assign (codes "last_error_message") (codes "apply_status"),
          find-insert_or_assign (codes "last_error_code") (codes "apply_status"),
          find-insert_or_assign (codes "apply_status") (codes "apply_status"),
        )
        refl
  result_row-find false next error_code error_message application =
      rw
        (
          find-insert_or_assign (codes "last_error_message") (codes "apply_status"),
          find-insert_or_assign (codes "last_error_code") (codes "apply_status"),
          find-insert_or_assign (codes "apply_status") (codes "apply_status"),
        )
        refl

  -- The keys of two tables are different: their fifth letters are.
  app_key-ne-marker :
      (event : EventEnvelope)
      → connection_app_key event.device event.resource_id
        ≢ orch_result_application_publication_key event.event_id
  unfolding codes
  app_key-ne-marker event e =
      let letters : fifth (connection_app_key event.device event.resource_id) ≡ 79 = ap fifth e in
      absurd (omega arith)

  -- The row of the result's connection holds the same fields as before.
  abbrev pub IsRowKept : EventEnvelope → Databases S → Databases S → Type 0
  IsRowKept event before after =
      (f : Text)
      → hget S after.appl (connection_app_key event.device event.resource_id) f
        ≡ hget S before.appl (connection_app_key event.device event.resource_id) f

  -- The row, of the version of the result, has the status that the result gives it.
  abbrev pub IsRowSettled : EventEnvelope → Bool → Databases S → Databases S → Type 0
  IsRowSettled event success before after =
      let row_before = S.hgetall before.appl (connection_app_key event.device event.resource_id) in
      (current : ConnectionApplyStatus) × (next : ConnectionApplyStatus) × (current_status
          row_before
        ≡ returns current)
      × (current_version row_before ≡ returns event.desired_version)
      × (hget S after.appl (connection_app_key event.device event.resource_id)
            (codes "apply_status")
          ≡ some (ConnectionStateMachine.to_string next))
      × IsOutcome success next
      × IsLegal current next

  module _ (L : IsLawful S) (J : JsonLibrary) (policy : ApplyRetryPolicy)
      (after_phase : Text → Outcome (Unit {0})) (retry_now event_now clear_now : ℕ)
      (alarm_now : Text → ℕ) where
    newer-absurd :
        (application : TextMap Text) (version : ℕ)
        → (text : Text) × (old : ℕ) × (find (codes "desired_version") application ≡ some text)
          × (stoull text ≡ returns old)
          × (version < old)
        → current_version application ≢ returns version
    unfolding current_version
    newer-absurd application version (text, old, e, read, newer) h = ground arith

    has_hash_both-exists :
        (key : Text) (d : S.Db) (other : Bool)
        → (has_hash S key d && other) ≡ true
        → S.exists d key ≡ true
    unfolding has_hash get_hash
    has_hash_both-exists key d other h = elim (Bool-cases (S.exists d key)) [
      | inl there ↦ there
      | inr missing ↦ absurd (ground (arith, L.hgetall_absent d key missing))
    ]

    marker_version :
        (event : EventEnvelope)
        → find (codes "desired_version") (result_marker S J event)
          ≡ some (to_string event.desired_version)
    unfolding find insert_or_assign text_discrete compare_text codes
    marker_version event = refl

    publish_result-IsReplaced :
        (event : EventEnvelope) (next : ConnectionApplyStatus) (application : TextMap Text)
        (dbs : Databases S)
        → S.is_stream (orch_result_application_publication_key event.event_id) ≡ false
        → S.is_stream (connection_app_key event.device event.resource_id) ≡ false
        → event.desired_version < 2 ^ 64
        → Ensures
            (λ after.
              IsReplaced S
                (orch_result_application_publication_key event.event_id)
                event.desired_version
                (connection_app_key event.device event.resource_id)
                application
                dbs.appl
                after.appl)
            (publish_result S J policy after_phase retry_now event_now clear_now alarm_now event
              next application dbs)
    unfolding publish_result
    publish_result-IsReplaced event next application dbs tm tk small =
        let device_row = if status_eq next absent then [] else application in
        Ensures-bind
          (publish_versioned S (orch_result_device_publication_key event.event_id)
            (result_marker S J event) ((device_key S J event, device_row) ∷ []) dbs.device)
          λ device e0. Ensures-bind (after_phase (codes "device-result")) λ u e1.
            let marker = orch_result_application_publication_key event.event_id in
            Ensures-bind
              (publish_versioned S marker (result_marker S J event)
                ((app_key S J event, application) ∷ []) dbs.appl)
              λ appl e2. Ensures-bind (after_phase (codes "application-result")) λ v e3.
                Ensures-value (
                  (publish_versioned-IsReplaced S L marker (app_key S J event)
                      (result_marker S J event) application dbs.appl
                      (to_string event.desired_version) event.desired_version (marker_version event)
                      (stoull-to_string event.desired_version small) tm tk
                      (app_key-ne-marker event)).holds
                    appl e2)

    clear_keeps :
        (event : EventEnvelope) (success : Bool) (published : Databases S)
        → Ensures (KeepsAppl S published) (
            if success
            then clear_timeout_alarm S J event clear_now published
              >>= (λ cleared. after_phase (codes "alarm-clear") >> returns cleared)
            else returns published)
    clear_keeps event success published =
        Ensures-if success
          (λ e. Ensures-bind (clear_timeout_alarm S J event clear_now published) λ cleared k.
            Ensures-bind (after_phase (codes "alarm-clear")) λ u e'.
              Ensures-value
                ((clear_timeout_alarm-KeepsAppl S J event clear_now published).holds cleared k))
          (λ e. Ensures-value refl)

    -- The row after a result: kept, or with the status.
    abbrev HasStatus : EventEnvelope → ConnectionApplyStatus → Databases S → Databases S → Type 0
    HasStatus event next before after =
        (IsRowKept event before after
          × ((S.exists before.appl (orch_result_application_publication_key event.event_id) ≡ true)
              ⊎ IsNewer S event.desired_version (connection_app_key event.device event.resource_id)
                  before.appl))
        ⊎ (hget S after.appl (connection_app_key event.device event.resource_id)
              (codes "apply_status")
            ≡ some (ConnectionStateMachine.to_string next))

    apply_result-HasStatus :
        (event : EventEnvelope) (result : J.Value) (success : Bool) (next : ConnectionApplyStatus)
        (application : TextMap Text) (dbs : Databases S)
        → S.is_stream (orch_result_application_publication_key event.event_id) ≡ false
        → S.is_stream (connection_app_key event.device event.resource_id) ≡ false
        → event.desired_version < 2 ^ 64
        → Ensures (HasStatus event next dbs) (
            apply_result S J policy after_phase retry_now event_now clear_now alarm_now event result
              success next application dbs)
    unfolding apply_result
    apply_result-HasStatus event result success next application dbs tm tk small =
        Ensures-bind (J.at result (codes "error_code") >>= J.get_text) λ code e0.
          Ensures-bind
            (if status_eq next absent
              then returns []
              else J.at result (codes "error_message") >>= J.get_text)
            λ message e1.
              let row_after = result_row success next code message application in
              Ensures-bind
                (publish_result S J policy after_phase retry_now event_now clear_now alarm_now event
                  next row_after dbs)
                λ published e2. record {
                  holds = λ after k.
                      let kept : after.appl ≡ published.appl =
                        (clear_keeps event success published).holds after k in
                      let key = connection_app_key event.device event.resource_id in
                      elim ((publish_result-IsReplaced event next row_after dbs tm tk small).holds
                        published e2) [
                          | inl (same, reason) ↦
                              inl ((λ f. ap (λ (d : S.Db). hget S d key f) kept ∙ same f), reason)
                          | inr changed ↦ inr (
                              ap (λ (d : S.Db). hget S d key (codes "apply_status")) kept
                              ∙ changed (codes "apply_status")
                              ∙ result_row-find success next code message application)
                        ];
                }

    -- The result was published before, or there is no row, or the result is stale for the row.
    abbrev pub IsIdle : EventEnvelope → J.Value → Bool → Databases S → Type 0
    IsIdle event result success before =
        (S.exists before.appl (orch_result_application_publication_key event.event_id) ≡ true)
        ⊎ ((S.hgetall before.appl (connection_app_key event.device event.resource_id) ≡ [])
            ⊎ (decide event success (J.value_text result (codes "command_id") [])
                  (S.hgetall before.appl (connection_app_key event.device event.resource_id))
                ≡ returns none))

    -- The row is kept for a reason, or settled.
    abbrev pub IsResultHandled : EventEnvelope → J.Value → Bool → Databases S → Databases S → Type 0
    IsResultHandled event result success before after =
        (IsRowKept event before after × IsIdle event result success before)
        ⊎ IsRowSettled event success before after

    decision-settles :
        (event : EventEnvelope) (result : J.Value) (success : Bool) (dbs : Databases S)
        → S.is_stream (orch_result_application_publication_key event.event_id) ≡ false
        → S.is_stream (connection_app_key event.device event.resource_id) ≡ false
        → event.desired_version < 2 ^ 64
        → (found : Option ConnectionApplyStatus)
        → decide event success
            (J.value_text result (codes "command_id") [])
            (S.hgetall dbs.appl (app_key S J event))
          ≡ returns found
        → Ensures (IsResultHandled event result success dbs) (elim found [
          | none ↦ returns dbs
          | some next ↦
              apply_result S J policy after_phase retry_now event_now clear_now alarm_now event
                result success next
                (S.hgetall dbs.appl (app_key S J event))
                dbs
        ])
    decision-settles event result success dbs tm tk small none h =
        Ensures-value (inl ((λ f. refl), inr (inr h)))
    decision-settles event result success dbs tm tk small (some next) h = record {
      holds = λ after k.
          let application = S.hgetall dbs.appl (app_key S J event) in
          let (current, now, version, outcome, legal) =
            decide-returns event success (J.value_text result (codes "command_id") []) application
              next h in
          elim ((apply_result-HasStatus event result success next application dbs tm tk small).holds
            after k) [
              | inl (kept, inl there) ↦ inl (kept, inl there)
              | inl (kept, inr newer) ↦
                  absurd (newer-absurd application event.desired_version newer version)
              | inr status ↦ inr (current, next, now, version, status, outcome, legal)
            ];
    }

    settles :
        (event : EventEnvelope) (result : J.Value) (success : Bool) (dbs : Databases S)
        → S.is_stream (orch_result_application_publication_key event.event_id) ≡ false
        → S.is_stream (connection_app_key event.device event.resource_id) ≡ false
        → event.desired_version < 2 ^ 64
        → Ensures (IsResultHandled event result success dbs) (
            process_settled_result S J policy after_phase retry_now event_now clear_now alarm_now
              event result success dbs)
    unfolding process_settled_result get_hash
    settles event result success dbs tm tk small =
        let application = S.hgetall dbs.appl (app_key S J event) in
        let key = connection_app_key event.device event.resource_id in
        let marked =
          has_hash_both-exists (orch_result_application_publication_key event.event_id) dbs.appl
            (has_hash S (orch_result_device_publication_key event.event_id) dbs.device) in
        let read_id = J.value_text result (codes "command_id") [] in
        Ensures-if
          (has_hash S (orch_result_application_publication_key event.event_id) dbs.appl
            && has_hash S (orch_result_device_publication_key event.event_id) dbs.device)
          (λ e.
            Ensures-if success
              (λ e'. record {
                holds = λ after k. inl (
                  (λ f.
                      ap (λ (d : S.Db). hget S d key f)
                        ((clear_timeout_alarm-KeepsAppl S J event clear_now dbs).holds after k)),
                  inl (marked e),
                );
              })
              (λ e'. Ensures-value (inl ((λ f. refl), inl (marked e)))))
          λ e.
            Ensures-if (has_no_fields application)
              (λ e'.
                Ensures-value (inl ((λ f. refl), inr (inl (has_no_fields-nil application e')))))
              λ e'.
                Ensures-bind (decide event success read_id application)
                  λ found k. decision-settles event result success dbs tm tk small found k

    -- Where the handling of a result other than an apply timeout returns, the row of its connection
    -- in the application's database either keeps every field, and then the result's marker was
    -- there before, or there is no row, or the result is stale for it; or the row had the version
    -- of the result and is left with a status of the result: FAILED after a failure, and ACTIVE or
    -- ABSENT after a success. That status is reached from the row's by a legal transition, or,
    -- where the row is failed or waits for a retry, by two legal transitions from RETRY_WAIT. The
    -- keys of the row and of the marker are not those of streams, and the version is a uint64_t.
    pub process_settled_result-row :
        (event : EventEnvelope) (result : J.Value) (success : Bool) (before after : Databases S)
        → S.is_stream (orch_result_application_publication_key event.event_id) ≡ false
        → S.is_stream (connection_app_key event.device event.resource_id) ≡ false
        → event.desired_version < 2 ^ 64
        → process_settled_result S J policy after_phase retry_now event_now clear_now alarm_now
            event result success before
          ≡ returns after
        → IsResultHandled event result success before after
    process_settled_result-row event result success before after tm tk small h =
        (settles event result success before tm tk small).holds after h

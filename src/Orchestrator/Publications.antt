-- ===== src/Orchestrator/Publications.antt =====
-- The events that cpp/src/orchestrator_service.cpp publishes once, each under a marker.
use mini_ocs_nos.Base.{
  ◌≡◌, ◌≢◌, refl, subst, true, false, [], ◌∷◌, ◌++◌, arith, inl, inr, Bool-cases,
}
use mini_ocs_nos.Base.Text.{Text}
use mini_ocs_nos.Base.TextMap.{TextMap, insert_or_assign}
use mini_ocs_nos.Base.Outcome.{returns, Ensures, Ensures-bind, Ensures-value, >>=-returns}
use mini_ocs_nos.RedisRepository.Events.{EventEnvelope, event_fields, validate_event}
use mini_ocs_nos.RedisRepository.Server.{Server, IsLawful, exec, xadd, hmset}
use mini_ocs_nos.RedisRepository.Watch.{
  Reply, wrote, skipped, watch_loop, is_refused, max_watch_retries,
}
use mini_ocs_nos.RedisRepository.Writes.{once, append_event_once, get_hash, has_no_fields}
use mini_ocs_nos.RedisRepository.Effects.{exists-publish, entries-publish}
use mini_ocs_nos.Orchestrator.Databases.{alone, after_write, publish_event, has_hash}

-- Not the empty map.
pub insert_or_assign-ne-nil : (k v : Text) (m : TextMap Text) → insert_or_assign k v m ≢ []
unfolding insert_or_assign
insert_or_assign-ne-nil k v [] h = cc
insert_or_assign-ne-nil k v ((j, w) ∷ m) h = ground arith

pub has_no_fields-nil : (m : TextMap Text) → has_no_fields m ≡ true → m ≡ []
has_no_fields-nil [] h = refl
has_no_fields-nil (x ∷ m) h = absurd (ground arith)

module _ (S : Server) (L : IsLawful S) where
  -- A write-once loop leaves its marker, whoever wrote it.
  write_once-marked :
      (marker : Text) (fields : TextMap Text) (stream : Text) (event : EventEnvelope) (d : S.Db)
      (reply : Reply S)
      → S.is_stream marker ≡ false
      → fields ≢ []
      → watch_loop S max_watch_retries 0
          (marker ∷ [])
          (once S marker (xadd stream (event_fields event) ∷ hmset marker fields ∷ []))
          (alone S d)
        ≡ returns reply
      → S.exists (after_write S d reply) marker ≡ true
  unfolding watch_loop once is_refused
  write_once-marked marker fields stream event d (wrote e) hashed ne h =
      let marked = exists-publish S L d stream (event_fields event) marker fields hashed ne in
      let written = exec S d (xadd stream (event_fields event) ∷ hmset marker fields ∷ []) in
      elim (Bool-cases (S.exists d marker)) [
        | inl there ↦ absurd (ground arith)
        | inr missing ↦
            let same : written ≡ e = ground arith in
            subst (λ (x : S.Db). S.exists x marker ≡ true) same marked
      ]
  write_once-marked marker fields stream event d skipped hashed ne h =
      elim (Bool-cases (S.exists d marker)) [
        | inl there ↦ there
        | inr missing ↦ absurd (ground arith)
      ]

  -- A write-once loop appends the event to its stream if its marker is missing.
  write_once-appended :
      (marker : Text) (fields : TextMap Text) (stream : Text) (event : EventEnvelope) (d : S.Db)
      (reply : Reply S)
      → S.is_stream stream ≡ true
      → S.exists d marker ≡ false
      → watch_loop S max_watch_retries 0
          (marker ∷ [])
          (once S marker (xadd stream (event_fields event) ∷ hmset marker fields ∷ []))
          (alone S d)
        ≡ returns reply
      → S.entries (after_write S d reply) stream ≡ S.entries d stream ++ (event_fields event ∷ [])
  unfolding watch_loop once is_refused
  write_once-appended marker fields stream event d (wrote e) streamed missing h =
      let written = exec S d (xadd stream (event_fields event) ∷ hmset marker fields ∷ []) in
      let same : written ≡ e = ground arith in
      subst (λ (x : S.Db). S.entries x stream ≡ S.entries d stream ++ (event_fields event ∷ []))
        same (entries-publish S L d stream (event_fields event) marker fields streamed)
  write_once-appended marker fields stream event d skipped streamed missing h =
      absurd (ground arith)

  -- A key of a hash that exists has a hash.
  pub exists-has_hash :
      (key : Text) (d : S.Db)
      → S.is_stream key ≡ false
      → S.exists d key ≡ true
      → has_hash S key d ≡ true
  unfolding has_hash get_hash
  exists-has_hash key d hashed there = elim (Bool-cases (has_no_fields (S.hgetall d key))) [
    | inl e ↦ absurd (L.hgetall_there d key hashed there (has_no_fields-nil (S.hgetall d key) e))
    | inr e ↦ rw e refl
  ]

  -- An event that is published leaves a hash at its marker.
  pub publish_event-marked :
      (marker : Text) (fields : TextMap Text) (stream : Text) (event : EventEnvelope) (d : S.Db)
      → S.is_stream marker ≡ false
      → fields ≢ []
      → Ensures (λ e. has_hash S marker e ≡ true) (publish_event S marker fields stream event d)
  unfolding publish_event append_event_once
  publish_event-marked marker fields stream event d hashed ne =
      Ensures-bind (append_event_once S marker fields stream event (alone S d)) λ reply h.
        let (u, valid, run) = >>=-returns (validate_event event) _ h in
        let there = write_once-marked marker fields stream event d reply hashed ne run in
        Ensures-value (exists-has_hash marker (after_write S d reply) hashed there)

  -- An event whose marker is missing is appended to its stream.
  pub publish_event-appended :
      (marker : Text) (fields : TextMap Text) (stream : Text) (event : EventEnvelope) (d : S.Db)
      → S.is_stream stream ≡ true
      → S.exists d marker ≡ false
      → Ensures
          (λ e. S.entries e stream ≡ S.entries d stream ++ (event_fields event ∷ []))
          (publish_event S marker fields stream event d)
  unfolding publish_event append_event_once
  publish_event-appended marker fields stream event d streamed missing =
      Ensures-bind (append_event_once S marker fields stream event (alone S d)) λ reply h.
        let (u, valid, run) = >>=-returns (validate_event event) _ h in
        Ensures-value (write_once-appended marker fields stream event d reply streamed missing run)

-- ===== src/RedisRepository/Once.antt =====
-- The guarded writes of cpp/src/redis_repository.cpp that publish an event take effect at one
-- moment, as if no other client wrote in between, and only once.
use mini_ocs_nos.Base.{
  ℕ, ◌<◌, ◌≡◌, ◌≢◌, refl, ap, sym, ◌∙◌, true, false, List, [], ◌∷◌, ◌++◌, arith, inl, inr,
  Bool-cases,
}
use mini_ocs_nos.Base.Text.{Text}
use mini_ocs_nos.Base.TextMap.{TextMap, find}
use mini_ocs_nos.Base.Outcome.{returns, >>=-returns}
use mini_ocs_nos.RedisRepository.Events.{EventEnvelope, event_fields, validate_event}
use mini_ocs_nos.RedisRepository.Server.{Command, hmset, xadd, Server, IsLawful, exec, hget}
use mini_ocs_nos.RedisRepository.Watch.{
  Attempt, wrote, skipped, watch_loop, max_watch_retries, IsFaithful, is_refused,
}
use mini_ocs_nos.RedisRepository.Watch.Cases.{watch_loop-wrote}
use mini_ocs_nos.RedisRepository.Writes.{once, replace_commands, replace_hash_and_append_event_once}
use mini_ocs_nos.RedisRepository.Effects.{
  exec-append, hget-replace, entries-replace, hget-publish, entries-publish, exists-publish,
}

module _ (S : Server) (env : ℕ → Attempt S) (marker : Text)
    (faithful : (i : ℕ) → IsFaithful S (env i)) where
  -- The EXEC of a write-once loop met a database without the marker.
  pub once-wrote :
      (commands : List Command) (d : S.Db)
      → watch_loop S max_watch_retries 0 (marker ∷ []) (once S marker commands) env
        ≡ returns (wrote d)
      → (i : ℕ) × (i < 8)
        × (S.exists (env i).at_exec marker ≡ false)
        × (d ≡ exec S (env i).at_exec commands)
  unfolding once is_refused
  once-wrote commands d h =
      let (i, lo, hi, c) = watch_loop-wrote S (marker ∷ []) (once S marker commands) env 8 0 d h in
      let a = c.accepted in
      let (same, there) = faithful i marker (ground arith) in
      elim (Bool-cases (S.exists (env i).watched marker)) [
        | inl e ↦ absurd (let k = c.decision in ground arith)
        | inr e ↦
            let k = c.decision in let r = c.result in (i, omega arith, there ∙ e, ground arith)
      ]

once-skipped :
    (S : Server) (env : ℕ → Attempt S) (marker : Text) (commands : List Command)
    → S.exists (env 0).watched marker ≡ true
    → watch_loop S max_watch_retries 0 (marker ∷ []) (once S marker commands) env ≡ returns skipped
unfolding once watch_loop
once-skipped S env marker commands h = rw h refl

-- What a publication of a hash, an event and a marker has done to a database.
pub record IsPublished (S : Server) (before after : S.Db) (marker key : Text)
    (fields : TextMap Text) (stream : Text) (event : EventEnvelope) : Type 0 where
  pub unmarked : S.exists before marker ≡ false
  pub marked : S.exists after marker ≡ true
  pub replaced : (f : Text) → hget S after key f ≡ find f fields
  pub appended : S.entries after stream ≡ S.entries before stream ++ (event_fields event ∷ [])
  pub others : (j f : Text) → j ≢ key → j ≢ marker → hget S after j f ≡ hget S before j f

module _ (S : Server) (L : IsLawful S) (marker : Text) (marker_fields : TextMap Text) (key : Text)
    (fields : TextMap Text) (stream : Text) (event : EventEnvelope) where
  -- The stream is one, and the two other keys are hashes.
  abbrev pub HasKinds : Type 0
  HasKinds = (S.is_stream marker ≡ false) × (S.is_stream key ≡ false) × (S.is_stream stream ≡ true)

  not_stream : HasKinds → key ≢ stream
  not_stream t e = ground (arith, ap S.is_stream e)

  publication :
      (b : S.Db)
      → marker ≢ key
      → HasKinds
      → marker_fields ≢ []
      → S.exists b marker ≡ false
      → IsPublished S b
          (exec S b (
            replace_commands key fields
            ++ (xadd stream (event_fields event) ∷ hmset marker marker_fields ∷ [])))
          marker
          key
          fields
          stream
          event
  publication b mk (tm, tk, ts) mf u =
      let e = event_fields event in
      let b' = exec S b (replace_commands key fields) in
      let split =
        exec-append S b (replace_commands key fields)
          (xadd stream e ∷ hmset marker marker_fields ∷ []) in
      record {
        unmarked = u;
        marked =
            ap (λ (x : S.Db). S.exists x marker) split
            ∙ exists-publish S L b' stream e marker marker_fields tm mf;
        replaced = λ f.
            ap (λ (x : S.Db). hget S x key f) split
            ∙ hget-publish S L b' stream e marker marker_fields key f tm mk
            ∙ ground (arith, hget-replace S L b key fields key f tk);
        appended =
            ap (λ (x : S.Db). S.entries x stream) split
            ∙ entries-publish S L b' stream e marker marker_fields ts
            ∙ ap (λ (x : List _). x ++ (e ∷ []))
                (entries-replace S L b key fields stream (not_stream (tm, tk, ts)));
        others = λ j f jk jm.
            ap (λ (x : S.Db). hget S x j f) split
            ∙ hget-publish S L b' stream e marker marker_fields j f tm (λ x. jm (sym x))
            ∙ ground (arith, hget-replace S L b key fields j f tk);
      }

  -- Where replaceHashAndAppendEventOnce returns true, for a marker that is not empty, a marker's
  -- key that is not the hash's, neither of them a stream's, and a stream's key that is one, one of
  -- its eight rounds published, whatever other clients did: its EXEC met a database without the
  -- marker, and left it with the marker, the new hash in place of the old one, the event at the
  -- end of the stream, and every other hash as it was.
  pub replace_hash_and_append_event_once-wrote :
      (env : ℕ → Attempt S) (d : S.Db)
      → marker ≢ key
      → HasKinds
      → marker_fields ≢ []
      → ((i : ℕ) → IsFaithful S (env i))
      → replace_hash_and_append_event_once S marker marker_fields key fields stream event env
        ≡ returns (wrote d)
      → (i : ℕ) × (i < 8) × IsPublished S (env i).at_exec d marker key fields stream event
  unfolding replace_hash_and_append_event_once
  replace_hash_and_append_event_once-wrote env d mk ks mf faithful h =
      let (t, valid, run) = >>=-returns (validate_event event) _ h in
      let (i, lt, u, e) = once-wrote S env marker faithful _ d run in
      (i, lt, rw e (publication (env i).at_exec mk ks mf u))

  -- Where replaceHashAndAppendEventOnce returned true, for a marker that is not empty, a marker's
  -- key that is not the hash's, neither of them a stream's, and a stream's key that is one, a later
  -- call with the same arguments returns false if the first round finds the marker as the first
  -- call left it.
  pub replace_hash_and_append_event_once_repeated :
      (env env' : ℕ → Attempt S) (d : S.Db)
      → marker ≢ key
      → HasKinds
      → marker_fields ≢ []
      → ((i : ℕ) → IsFaithful S (env i))
      → replace_hash_and_append_event_once S marker marker_fields key fields stream event env
        ≡ returns (wrote d)
      → S.exists (env' 0).watched marker ≡ S.exists d marker
      → replace_hash_and_append_event_once S marker marker_fields key fields stream event env'
        ≡ returns skipped
  unfolding replace_hash_and_append_event_once
  replace_hash_and_append_event_once_repeated env env' d mk ks mf faithful h kept =
      let (i, lt, p) = replace_hash_and_append_event_once-wrote env d mk ks mf faithful h in
      let (t, valid, run) = >>=-returns (validate_event event) _ h in
      rw valid (once-skipped S env' marker _ (kept ∙ p.marked))

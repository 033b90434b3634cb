-- ===== src/Orchestrator/Databases.antt =====
-- The databases that cpp/src/orchestrator_service.cpp keeps. A call of a handler is modelled
-- alone on them; what other clients do to the guarded writes is in RedisRepository.
use mini_ocs_nos.Base.{
  ℕ, Bool, true, false, Option, none, some, List, [], ◌∷◌, ◌++◌, not, if◌then◌else◌,
}
use mini_ocs_nos.Base.Text.{Text, codes}
use mini_ocs_nos.Base.TextMap.{TextMap, insert_or_assign}
use mini_ocs_nos.Base.Outcome.{Outcome, returns, throws, Exception, ◌>>=◌}
use mini_ocs_nos.DeviceTypes.{ℤ}
use mini_ocs_nos.RedisRepository.Events.{EventEnvelope, StreamMessage}
use mini_ocs_nos.RedisRepository.Server.{Server}
use mini_ocs_nos.RedisRepository.Watch.{Attempt, Reply, wrote, skipped}
use mini_ocs_nos.RedisRepository.Writes.{
  put_hash_if_absent, append_event_once, replace_hash_and_append_event_once, get_hash,
  has_no_fields,
}
use mini_ocs_nos.RedisRepository.Writes.Versioned.{put_versioned_hashes_atomically_if_marker_absent}
use mini_ocs_nos.RedisRepository.Writes.Counters.{increment_hash_fields_once}

abbrev pub config_events : Text
config_events = codes "OCS_CONFIG_EVENTS"

abbrev pub device_commands : Text
device_commands = codes "OCS_DEVICE_COMMANDS"

abbrev pub device_results : Text
device_results = codes "OCS_DEVICE_RESULTS"

abbrev pub device_retries : Text
device_retries = codes "OCS_DEVICE_RETRIES"

abbrev pub alarm_events : Text
alarm_events = codes "OCS_ALARM_EVENTS"

-- The message to handle: a claimed one, or a new one, if there is one.
abbrev pub next_message : List StreamMessage → List StreamMessage → Option StreamMessage
next_message (message ∷ claimed) fresh = some message
next_message [] (message ∷ fresh) = some message
next_message [] [] = none

abbrev pub Hashes : Type 0
Hashes = List (Text × TextMap Text)

-- The rows of connections under the keys of a table.
abbrev pub keyed : (Text → Text) → Hashes → Hashes
keyed key [] = []
keyed key ((id, fields) ∷ rows) = (key id, fields) ∷ keyed key rows

-- std::map from an initializer list without repeated keys.
abbrev pub row : List (Text × Text) → TextMap Text
row [] = []
row ((k, v) ∷ fields) = insert_or_assign k v (row fields)

module _ (S : Server) where
  -- The databases, and the entries of streams that have been acknowledged, the last one first.
  pub record Databases : Type 0 where
    pub config : S.Db
    pub appl : S.Db
    pub device : S.Db
    pub alarm : S.Db
    pub counters : S.Db
    pub acknowledged : List (Text × Text)

  -- What a guarded write meets where no other client writes.
  abbrev pub alone : S.Db → ℕ → Attempt S
  alone d i = record { watched = d; at_exec = d; touched = λ k. false }

  abbrev pub after_write : S.Db → Reply S → S.Db
  after_write d (wrote e) = e
  after_write d skipped = d

  abbrev pub settle : S.Db → Outcome (Reply S) → Outcome S.Db
  settle d reply = reply >>= λ r. returns (after_write d r)

  unfoldable pub publish_versioned : Text → TextMap Text → Hashes → S.Db → Outcome S.Db
  unfolding put_versioned_hashes_atomically_if_marker_absent
  publish_versioned marker fields hashes d =
      settle d (put_versioned_hashes_atomically_if_marker_absent S marker fields hashes (alone d))

  unfoldable pub publish_event : Text → TextMap Text → Text → EventEnvelope → S.Db → Outcome S.Db
  unfolding append_event_once
  publish_event marker fields stream event d =
      settle d (append_event_once S marker fields stream event (alone d))

  unfoldable pub publish_row :
      Text → TextMap Text → Text → TextMap Text → Text → EventEnvelope → S.Db → Outcome S.Db
  unfolding replace_hash_and_append_event_once
  publish_row marker fields key hash stream event d =
      settle d (replace_hash_and_append_event_once S marker fields key hash stream event (alone d))

  unfoldable pub publish_count : Text → TextMap Text → Text → TextMap ℤ → S.Db → Outcome S.Db
  unfolding increment_hash_fields_once
  publish_count marker fields key increments d =
      settle d (increment_hash_fields_once S marker fields key increments (alone d))

  unfoldable pub prepare_row : Text → TextMap Text → S.Db → Outcome S.Db
  unfolding put_hash_if_absent
  prepare_row key fields d = settle d (put_hash_if_absent S key fields (alone d))

  -- Whether a key has a hash.
  unfoldable pub has_hash : Text → S.Db → Bool
  unfolding get_hash
  has_hash key d = not (has_no_fields (get_hash S key d))

  -- XACK
  abbrev pub acknowledge : Text → Text → Databases → Databases
  acknowledge stream id dbs = record dbs { acknowledged = (stream, id) ∷ dbs.acknowledged }

-- m.at(k)
abbrev pub value_at : Text → TextMap Text → Outcome Text
value_at k m = elim (mini_ocs_nos.Base.TextMap.find k m) [
  | none ↦ throws Exception.out_of_range
  | some v ↦ returns v
]

-- ===== src/RedisRepository/Writes.antt =====
-- The writes of RedisRepository (cpp/src/redis_repository.cpp). A write without a guard is a change
-- of the database that it meets; a guarded one runs the loop of Watch against the other clients.
pub mod Versioned
pub mod Counters
use mini_ocs_nos.Base.{ℕ, Bool, true, false, Option, none, some, List, [], ◌∷◌, ◌++◌, if◌then◌else◌}
use mini_ocs_nos.Base.Text.{Text, codes}
use mini_ocs_nos.Base.TextMap.{TextMap}
use mini_ocs_nos.Base.Outcome.{Outcome, returns, throws, Exception, ◌>>=◌, ◌>>◌}
use mini_ocs_nos.DeviceTypes.{ℤ}
use mini_ocs_nos.RedisRepository.Events.{EventEnvelope, event_fields, validate_event}
use mini_ocs_nos.RedisRepository.Server.{Command, del, hmset, hsetnx, hincrby, xadd, Server, exec}
use mini_ocs_nos.RedisRepository.Watch.{
  Attempt, Reply, wrote, skipped, Body, watch_loop, max_watch_retries,
}

abbrev pub has_no_fields : TextMap Text → Bool
has_no_fields [] = true
has_no_fields (x ∷ m) = false

-- DEL, and HMSET unless there are no fields.
unfoldable pub replace_commands : Text → TextMap Text → List Command
replace_commands key fields = del key ∷ (if has_no_fields fields then [] else hmset key fields ∷ [])

unfoldable pub ensure_commands : Text → TextMap Text → List Command
ensure_commands key [] = []
ensure_commands key ((field, value) ∷ fields) = hsetnx key field value ∷ ensure_commands key fields

unfoldable pub replace_all_commands : List (Text × TextMap Text) → List Command
unfolding replace_commands
replace_all_commands [] = []
replace_all_commands ((key, fields) ∷ hashes) =
    replace_commands key fields ++ replace_all_commands hashes

module _ (S : Server) where
  -- The body of the operations that write once: a marker that is there stops them.
  unfoldable pub once : Text → List Command → Body S
  once marker_key commands d =
      if S.exists d marker_key then returns none else returns (some commands)

  unfoldable pub put_hash : Text → TextMap Text → S.Db → S.Db
  unfolding replace_commands
  put_hash key fields d = exec S d (replace_commands key fields)

  unfoldable pub put_hash_if_absent : Text → TextMap Text → (ℕ → Attempt S) → Outcome (Reply S)
  unfolding once
  put_hash_if_absent key fields env =
      if has_no_fields fields
      then throws Exception.invalid_argument
      else watch_loop S max_watch_retries 0 (key ∷ []) (once key (hmset key fields ∷ [])) env

  unfoldable pub ensure_hash_fields : Text → TextMap Text → S.Db → S.Db
  unfolding ensure_commands
  ensure_hash_fields key fields d =
      if has_no_fields fields then d else exec S d (ensure_commands key fields)

  unfoldable pub get_hash : Text → S.Db → TextMap Text
  get_hash key d = S.hgetall d key

  -- DEL replies how many keys it removed.
  unfoldable pub delete_key : Text → S.Db → Bool × S.Db
  delete_key key d = (S.exists d key, S.run d (del key))

  unfoldable pub put_hashes_atomically : List (Text × TextMap Text) → S.Db → S.Db
  unfolding replace_all_commands
  put_hashes_atomically hashes d = exec S d (replace_all_commands hashes)

  unfoldable pub append_event : Text → EventEnvelope → S.Db → Outcome S.Db
  unfolding validate_event
  append_event stream event d =
      validate_event event >> returns (S.run d (xadd stream (event_fields event)))

  unfoldable pub replace_hash_and_append_event :
      Text → TextMap Text → Text → EventEnvelope → S.Db → Outcome S.Db
  unfolding validate_event replace_commands
  replace_hash_and_append_event key fields stream event d =
      validate_event event
      >> returns (exec S d (replace_commands key fields ++ (xadd stream (event_fields event) ∷ [])))

  unfoldable pub replace_hash_and_append_event_once :
      Text
      → TextMap Text
      → Text
      → TextMap Text
      → Text
      → EventEnvelope
      → (ℕ → Attempt S)
      → Outcome (Reply S)
  unfolding validate_event once replace_commands
  replace_hash_and_append_event_once marker_key marker_fields key fields stream event env =
      validate_event event
      >> watch_loop S max_watch_retries 0 (marker_key ∷ [])
          (once marker_key (
            replace_commands key fields
            ++ (xadd stream (event_fields event) ∷ hmset marker_key marker_fields ∷ [])))
          env

  unfoldable pub append_event_once :
      Text → TextMap Text → Text → EventEnvelope → (ℕ → Attempt S) → Outcome (Reply S)
  unfolding validate_event once
  append_event_once marker_key marker_fields stream event env =
      validate_event event
      >> watch_loop S max_watch_retries 0 (marker_key ∷ [])
          (once marker_key (xadd stream (event_fields event) ∷ hmset marker_key marker_fields ∷ []))
          env

-- ===== src/RedisRepository/Writes/Versioned.antt =====
-- RedisRepository::putVersionedHashesAtomicallyIfMarkerAbsent (cpp/src/redis_repository.cpp).
use mini_ocs_nos.Base.{
  ℕ, Bool, true, Option, none, some, List, [], ◌∷◌, ◌++◌, leb, ◌==◌, if◌then◌else◌,
}
use mini_ocs_nos.Base.Text.{Text, codes}
use mini_ocs_nos.Base.TextMap.{TextMap, find}
use mini_ocs_nos.Base.Decimal.{stoull}
use mini_ocs_nos.Base.Outcome.{Outcome, returns, throws, Exception, ◌>>=◌, ◌>>◌}
use mini_ocs_nos.RedisRepository.Server.{Command, hmset, Server, hget}
use mini_ocs_nos.RedisRepository.Watch.{Attempt, Reply, Body, watch_loop, max_watch_retries}
use mini_ocs_nos.RedisRepository.Writes.{replace_commands}

-- The version of a hash to write, if it has one, is the version of the marker.
unfoldable pub check_version : Option Text → ℕ → Outcome (Unit {0})
check_version none desired_version = returns tt
check_version (some text) desired_version = stoull text >>= λ version.
    if version == desired_version then returns tt else throws Exception.invalid_argument

-- A hash is published over one of no version or of a version that is not newer.
unfoldable pub may_publish : Option Text → ℕ → Outcome Bool
may_publish none desired_version = returns true
may_publish (some text) desired_version =
    stoull text >>= λ version. returns (leb version desired_version)

-- The loop that watches the keys of the hashes.
unfoldable pub hash_keys : List (Text × TextMap Text) → List Text
hash_keys [] = []
hash_keys ((key, fields) ∷ hashes) = key ∷ hash_keys hashes

-- The commands that replace the hashes whose flag is set.
unfoldable pub publish_commands : List Bool → List (Text × TextMap Text) → List Command
unfolding replace_commands
publish_commands [] hashes = []
publish_commands (flag ∷ flags) [] = []
publish_commands (flag ∷ flags) ((key, fields) ∷ hashes) =
    let rest = publish_commands flags hashes in
    if flag then replace_commands key fields ++ rest else rest

module _ (S : Server) where
  -- The loop that fills `publish`.
  unfoldable pub publish_flags : List (Text × TextMap Text) → ℕ → S.Db → Outcome (List Bool)
  unfolding check_version may_publish
  publish_flags [] desired_version d = returns []
  publish_flags ((key, fields) ∷ hashes) desired_version d =
      let rest = publish_flags hashes desired_version d in
      check_version (find (codes "desired_version") fields) desired_version
      >> (may_publish (hget S d key (codes "desired_version")) desired_version >>= λ flag.
          rest >>= λ flags. returns (flag ∷ flags))

  unfoldable pub versioned : Text → TextMap Text → List (Text × TextMap Text) → ℕ → Body S
  unfolding publish_flags publish_commands
  versioned marker_key marker_fields hashes desired_version d =
      if S.exists d marker_key
      then returns none
      else publish_flags hashes desired_version d >>= λ flags.
          returns (some (publish_commands flags hashes ++ (hmset marker_key marker_fields ∷ [])))

  unfoldable pub put_versioned_hashes_atomically_if_marker_absent :
      Text → TextMap Text → List (Text × TextMap Text) → (ℕ → Attempt S) → Outcome (Reply S)
  unfolding versioned hash_keys
  put_versioned_hashes_atomically_if_marker_absent marker_key marker_fields hashes env =
      elim (find (codes "desired_version") marker_fields) [
        | none ↦ throws Exception.invalid_argument
        | some text ↦ stoull text >>= λ desired_version.
            watch_loop S max_watch_retries 0 (marker_key ∷ hash_keys hashes)
              (versioned marker_key marker_fields hashes desired_version) env
      ]

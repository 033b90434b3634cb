-- ===== src/RedisRepository/Writes/Counters.antt =====
-- RedisRepository::incrementHashFieldsOnce and recordApplyCountersOnce
-- (cpp/src/redis_repository.cpp). A long long is an integer of -2^63 up to 2^63 - 1.
use mini_ocs_nos.Base.{
  ℕ, zero, suc, ◌^◌, max, Bool, false, not, Option, none, some, List, [], ◌∷◌, ◌++◌, ltb, leb, ◌==◌,
  if◌then◌else◌,
}
use mini_ocs_nos.Base.Text.{Text, codes}
use mini_ocs_nos.Base.TextMap.{TextMap}
use mini_ocs_nos.Base.Decimal.{to_string, scan_digits, starts_with_digit, skip_spaces, split_sign}
use mini_ocs_nos.Base.Outcome.{Outcome, returns, throws, Exception, ◌>>=◌}
use mini_ocs_nos.DeviceTypes.{ℤ, pos, negsuc}
use mini_ocs_nos.RedisRepository.Server.{Command, hmset, hincrby, Server, hget}
use mini_ocs_nos.RedisRepository.Watch.{Attempt, Reply, Body, watch_loop, max_watch_retries}
use mini_ocs_nos.RedisRepository.Writes.{once}

abbrev pub negated : ℕ → ℤ
negated zero = pos 0
negated (suc n) = negsuc n

unfoldable pub stoll_signed : Bool × Text → Outcome ℤ
stoll_signed (minus, s) =
    let n = scan_digits s 0 in
    if not (starts_with_digit s)
    then throws Exception.invalid_argument
    else if minus
    then (if leb n (2 ^ 63) then returns (negated n) else throws Exception.out_of_range)
    else if ltb n (2 ^ 63)
    then returns (pos n)
    else throws Exception.out_of_range

-- std::stoll
unfoldable pub stoll : Text → Outcome ℤ
unfolding stoll_signed skip_spaces split_sign scan_digits
stoll s = stoll_signed (split_sign (skip_spaces s))

-- std::max of a latency that is not negative and another number.
abbrev pub max_latency : ℕ → ℤ → ℕ
max_latency n (pos m) = max n m
max_latency n (negsuc m) = n

abbrev pub is_zero : ℤ → Bool
is_zero (pos n) = n == 0
is_zero (negsuc n) = false

unfoldable pub increment_commands : Text → TextMap ℤ → List Command
increment_commands key [] = []
increment_commands key ((field, increment) ∷ increments) =
    let rest = increment_commands key increments in
    if is_zero increment then rest else hincrby key field increment ∷ rest

-- The largest latency so far, this one included.
unfoldable pub maximum : ℕ → Option Text → Outcome ℕ
unfolding stoll
maximum latency_ms none = returns latency_ms
maximum latency_ms (some text) =
    stoll text >>= λ existing_max. returns (max_latency latency_ms existing_max)

abbrev pub latency_fields : ℕ → ℕ → TextMap Text
latency_fields latency_ms largest =
    (codes "last_apply_latency_ms", to_string latency_ms)
    ∷ (codes "max_apply_latency_ms", to_string largest)
    ∷ []

module _ (S : Server) where
  unfoldable pub increment_hash_field : Text → Text → ℤ → S.Db → S.Db
  increment_hash_field key field increment d = S.run d (hincrby key field increment)

  unfoldable pub increment_hash_fields_once :
      Text → TextMap Text → Text → TextMap ℤ → (ℕ → Attempt S) → Outcome (Reply S)
  unfolding once increment_commands
  increment_hash_fields_once marker_key marker_fields key increments env =
      watch_loop S max_watch_retries 0 (marker_key ∷ [])
        (once S marker_key
          (increment_commands key increments ++ (hmset marker_key marker_fields ∷ [])))
        env

  unfoldable pub apply_counters : Text → TextMap Text → Text → TextMap ℤ → ℕ → Body S
  unfolding maximum increment_commands
  apply_counters marker_key marker_fields key increments latency_ms d =
      if S.exists d marker_key
      then returns none
      else maximum latency_ms (hget S d key (codes "max_apply_latency_ms")) >>= λ largest. returns (
          some (
            increment_commands key increments
            ++ (hmset key (latency_fields latency_ms largest)
                ∷ hmset marker_key marker_fields
                ∷ [])))

  unfoldable pub record_apply_counters_once :
      Text → TextMap Text → Text → TextMap ℤ → ℤ → (ℕ → Attempt S) → Outcome (Reply S)
  unfolding apply_counters
  record_apply_counters_once marker_key marker_fields key increments (negsuc n) env =
      throws Exception.invalid_argument
  record_apply_counters_once marker_key marker_fields key increments (pos latency_ms) env =
      watch_loop S max_watch_retries 0 (marker_key ∷ key ∷ [])
        (apply_counters marker_key marker_fields key increments latency_ms) env

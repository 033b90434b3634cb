-- ===== src/RedisRepository/Latency.antt =====
-- recordApplyCountersOnce of cpp/src/redis_repository.cpp keeps the largest latency.
use mini_ocs_nos.Base.{
  ℕ, ◌≤◌, ◌<◌, ◌≡◌, ◌≢◌, refl, ap, sym, ◌∙◌, true, false, Option, none, some, List, [], ◌∷◌, ◌++◌,
  arith, inl, inr, Bool-cases,
}
use mini_ocs_nos.Base.Text.{Text, codes, text_discrete}
use mini_ocs_nos.Base.TextMap.{TextMap, find}
use mini_ocs_nos.Base.Decimal.{to_string}
use mini_ocs_nos.Base.Outcome.{returns, >>=-returns}
use mini_ocs_nos.DeviceTypes.{ℤ, pos, negsuc}
use mini_ocs_nos.RedisRepository.Server.{Command, hmset, Server, IsLawful, exec, hget}
use mini_ocs_nos.RedisRepository.Watch.{Attempt, wrote, IsFaithful, is_refused}
use mini_ocs_nos.RedisRepository.Watch.Cases.{watch_loop-wrote}
use mini_ocs_nos.RedisRepository.Writes.Counters.{
  stoll, maximum, max_latency, latency_fields, increment_commands, apply_counters,
  record_apply_counters_once,
}
use mini_ocs_nos.RedisRepository.Effects.{exec-append}

abbrev pub last_field : Text
last_field = codes "last_apply_latency_ms"

abbrev pub max_field : Text
max_field = codes "max_apply_latency_ms"

find-latency_fields :
    (n m : ℕ)
    → (find last_field (latency_fields n m) ≡ some (to_string n))
      × (find max_field (latency_fields n m) ≡ some (to_string m))
unfolding find codes text_discrete
find-latency_fields n m = (refl, refl)

-- The number is at least both.
le-maximum :
    (n m : ℕ) (old : Option Text)
    → maximum n old ≡ returns m
    → (n ≤ m) × ((text : Text) (k : ℕ) → old ≡ some text → stoll text ≡ returns (pos k) → k ≤ m)
unfolding maximum
le-maximum n m none h = (ground arith, λ text k e f. cc)
le-maximum n m (some text) h =
    let (z, e, k) = >>=-returns (stoll text) _ h in
    (at_least z (ground arith), λ text' j f g. above z j (ground arith) (ground (arith, ap stoll)))
  where
    at_least : (z : ℤ) → max_latency n z ≡ m → n ≤ m
    at_least (pos k) h = ground arith
    at_least (negsuc k) h = ground arith

    above : (z : ℤ) (j : ℕ) → max_latency n z ≡ m → z ≡ pos j → j ≤ m
    above (pos k) j h e = ground arith
    above (negsuc k) j h e = ground arith

module _ (S : Server) (L : IsLawful S) (marker : Text) (mf : TextMap Text) (key : Text)
    (increments : TextMap ℤ) (latency : ℕ) where
  -- What a round queued, and the maximum that it found.
  decided :
      (b : S.Db) (commands : List Command)
      → apply_counters S marker mf key increments latency b ≡ returns (some commands)
      → (S.exists b marker ≡ false)
        × (m : ℕ) × (maximum latency (hget S b key max_field) ≡ returns m)
        × (commands
            ≡ increment_commands key increments
              ++ (hmset key (latency_fields latency m) ∷ hmset marker mf ∷ []))
  unfolding apply_counters
  decided b commands h = elim (Bool-cases (S.exists b marker)) [
    | inl e ↦ absurd (ground arith)
    | inr e ↦
        let (m, g, k) = >>=-returns (maximum latency (hget S b key max_field)) _ (rw e at h) in
        (e, m, g, ground arith)
  ]

  recorded :
      (b : S.Db) (m : ℕ) (f : Text) (value : Text)
      → S.is_stream key ≡ false
      → S.is_stream marker ≡ false
      → key ≢ marker
      → find f (latency_fields latency m) ≡ some value
      → hget S (exec S b (hmset key (latency_fields latency m) ∷ hmset marker mf ∷ [])) key f
        ≡ some value
  unfolding exec
  recorded b m f value tk tm km e = ground (
    arith,
    L.hget-hmset (S.run b (hmset key (latency_fields latency m))) marker mf key f tm,
    L.hget-hmset b key (latency_fields latency m) key f tk,
  )

  marked :
      (b : S.Db) (m : ℕ)
      → S.is_stream marker ≡ false
      → mf ≢ []
      → S.exists (exec S b (hmset key (latency_fields latency m) ∷ hmset marker mf ∷ [])) marker
        ≡ true
  unfolding exec
  marked b m tm n =
      ground (
        arith,
        L.exists-hmset (S.run b (hmset key (latency_fields latency m))) marker mf marker tm n,
      )

  -- Where recordApplyCountersOnce returns true, for a marker that is not empty and whose key is not
  -- the hash's, and two keys that are not a stream's, the EXEC of one of its eight rounds, whatever
  -- other clients did, met a database without the marker and left it with it, with the latency as
  -- the last one and, as the largest, a number that is neither below the latency nor below the
  -- largest one that EXEC found recorded.
  pub record_apply_counters_once-wrote :
      (env : ℕ → Attempt S) (d : S.Db)
      → S.is_stream key ≡ false
      → S.is_stream marker ≡ false
      → key ≢ marker
      → mf ≢ []
      → ((i : ℕ) → IsFaithful S (env i))
      → record_apply_counters_once S marker mf key increments (pos latency) env ≡ returns (wrote d)
      → (i : ℕ) × (m : ℕ) × (i < 8)
        × (S.exists (env i).at_exec marker ≡ false)
        × (S.exists d marker ≡ true)
        × (hget S d key last_field ≡ some (to_string latency))
        × (hget S d key max_field ≡ some (to_string m))
        × (latency ≤ m)
        × ((text : Text) (k : ℕ)
            → hget S (env i).at_exec key max_field ≡ some text
            → stoll text ≡ returns (pos k)
            → k ≤ m)
  unfolding record_apply_counters_once is_refused
  record_apply_counters_once-wrote env d tk tm km n faithful h =
      let (i, lo, hi, c) =
        watch_loop-wrote S (marker ∷ key ∷ []) (apply_counters S marker mf key increments latency)
          env 8 0 d h in
      let a = c.accepted in
      let here = faithful i marker (ground arith) in
      let there = faithful i key (ground arith) in
      let (absent, m, g, e) = decided (env i).watched c.commands c.decision in
      let b = exec S (env i).at_exec (increment_commands key increments) in
      let split : d ≡ exec S b (hmset key (latency_fields latency m) ∷ hmset marker mf ∷ []) =
        c.result
        ∙ ap (exec S (env i).at_exec) e
        ∙ exec-append S (env i).at_exec (increment_commands key increments)
            (hmset key (latency_fields latency m) ∷ hmset marker mf ∷ []) in
      let (last, largest) = find-latency_fields latency m in
      let bound = le-maximum latency m (hget S (env i).watched key max_field) g in
      (
        i,
        m,
        omega arith,
        here.1 ∙ absent,
        ap (λ (x : S.Db). S.exists x marker) split ∙ marked b m tm n,
        ap (λ (x : S.Db). hget S x key last_field) split ∙ recorded b m last_field _ tk tm km last,
        ap (λ (x : S.Db). hget S x key max_field) split ∙ recorded b m max_field _ tk tm km largest,
        bound.0,
        λ text k e' f. bound.1 text k (ap (find max_field) (sym there.0) ∙ e') f,
      )

-- ===== src/RedisRepository/Ends.antt =====
-- How the retry loop of replaceHashAndAppendEventOnce in cpp/src/redis_repository.cpp ends.
use mini_ocs_nos.Base.{
  ℕ, zero, suc, ◌+◌, ◌≤◌, ◌<◌, ◌≡◌, refl, true, false, List, [], ◌∷◌, ◌++◌, arith, ◌⊎◌, inl, inr,
  Bool-cases, subst,
}
use mini_ocs_nos.Base.Text.{Text}
use mini_ocs_nos.Base.TextMap.{TextMap}
use mini_ocs_nos.Base.Outcome.{returns, throws, Exception}
use mini_ocs_nos.RedisRepository.Events.{EventEnvelope, event_fields, validate_event}
use mini_ocs_nos.RedisRepository.Server.{Command, hmset, xadd, Server, exec}
use mini_ocs_nos.RedisRepository.Watch.{
  Attempt, Reply, wrote, skipped, watch_loop, max_watch_retries, is_refused,
}
use mini_ocs_nos.RedisRepository.Writes.{once, replace_commands, replace_hash_and_append_event_once}

module _ (S : Server) (marker : Text) (env : ℕ → Attempt S) where
  -- The round finds the marker, or nobody touches the marker before its EXEC.
  abbrev pub IsLast : ℕ → Type 0
  IsLast i = (S.exists (env i).watched marker ≡ true) ⊎ ((env i).touched marker ≡ false)

  -- The round finds no marker, and its EXEC is refused.
  abbrev pub IsRetried : ℕ → Type 0
  IsRetried i = (S.exists (env i).watched marker ≡ false) × ((env i).touched marker ≡ true)

  -- Rounds from `n` on: one of them returns, or all are retried.
  once_ends :
      (commands : List Command) (left n : ℕ)
      → ((r : Reply S) × (i : ℕ) × (n ≤ i)
          × (i < left + n)
          × IsLast i
          × (watch_loop S left n (marker ∷ []) (once S marker commands) env ≡ returns r))
        ⊎ (((i : ℕ) → n ≤ i → i < left + n → IsRetried i)
            × (watch_loop S left n (marker ∷ []) (once S marker commands) env
                ≡ throws Exception.runtime_error))
  unfolding watch_loop once is_refused
  once_ends commands zero n = inr ((λ i lo hi. absurd (omega arith)), refl)
  once_ends commands (suc left) n = elim (Bool-cases (S.exists (env n).watched marker)) [
    | inl there ↦ inl (skipped, n, omega arith, omega arith, inl there, rw there refl)
    | inr missing ↦ elim (Bool-cases ((env n).touched marker)) [
      | inr free ↦ inl (
        wrote (exec S (env n).at_exec commands),
        n,
        omega arith,
        omega arith,
        inr free,
        rw (missing, free) refl,
      )
      | inl taken ↦ elim (once_ends commands left (suc n)) [
        | inl (r, i, lo, hi, last, e) ↦
            inl (r, i, omega arith, omega arith, last, rw (missing, taken) e)
        | inr (all, e) ↦ inr (
          (λ i lo hi. elim (first n i lo) [
            | inl same ↦ subst IsRetried same (missing, taken)
            | inr later ↦ all i later (omega arith)
          ]),
          rw (missing, taken) e,
        )
      ]
    ]
  ]
    where
      first : (n i : ℕ) → n ≤ i → (n ≡ i) ⊎ (suc n ≤ i)
      first n i h = omega arith

  -- A call of replaceHashAndAppendEventOnce with a valid event either returns, where one of the
  -- rounds 0 to 7 finds the marker or meets no client that touches it, or throws runtime_error,
  -- where each of the rounds 0 to 7 finds no marker and another client touches it before EXEC.
  pub replace_hash_and_append_event_once_ends :
      (marker_fields : TextMap Text) (key : Text) (fields : TextMap Text) (stream : Text)
      (event : EventEnvelope)
      → validate_event event ≡ returns tt
      → ((r : Reply S) × (i : ℕ) × (i < 8)
          × IsLast i
          × (replace_hash_and_append_event_once S marker marker_fields key fields stream event env
              ≡ returns r))
        ⊎ (((i : ℕ) → i < 8 → IsRetried i)
            × (replace_hash_and_append_event_once S marker marker_fields key fields stream event env
                ≡ throws Exception.runtime_error))
  unfolding replace_hash_and_append_event_once
  replace_hash_and_append_event_once_ends marker_fields key fields stream event valid =
      let commands =
        replace_commands key fields
        ++ (xadd stream (event_fields event) ∷ hmset marker marker_fields ∷ []) in
      elim (once_ends commands max_watch_retries 0) [
        | inl (r, i, lo, hi, last, e) ↦ inl (r, i, omega arith, last, rw valid e)
        | inr (all, e) ↦ inr ((λ i hi. all i (omega arith) (omega arith)), rw valid e)
      ]

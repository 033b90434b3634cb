-- ===== src/RedisRepository/Watch/Cases.antt =====
-- How the loop of the guarded writes in cpp/src/redis_repository.cpp ends.
use mini_ocs_nos.Base.{
  ℕ, zero, suc, ◌+◌, ◌≤◌, ◌<◌, ◌≡◌, ap, ◌∙◌, false, none, some, List, arith, inl, inr, Bool-cases,
  Option-cases,
}
use mini_ocs_nos.Base.Text.{Text}
use mini_ocs_nos.Base.Outcome.{returns, >>=-returns}
use mini_ocs_nos.RedisRepository.Server.{Command, Server, exec}
use mini_ocs_nos.RedisRepository.Watch.{is_refused, Attempt, wrote, skipped, Body, watch_loop}

module _ (S : Server) (keys : List Text) (body : Body S) (env : ℕ → Attempt S) where
  -- Round `i` was committed: its EXEC ran the commands of its decision.
  pub record IsCommitted (i : ℕ) (d : S.Db) : Type 0 where
    pub commands : List Command
    pub decision : body (env i).watched ≡ returns (some commands)
    pub accepted : is_refused S keys (env i) ≡ false
    pub result : d ≡ exec S (env i).at_exec commands

  -- The loop returned true from one of the rounds `n`, ….
  pub watch_loop-wrote :
      (left n : ℕ) (d : S.Db)
      → watch_loop S left n keys body env ≡ returns (wrote d)
      → (i : ℕ) × (n ≤ i) × (i < left + n) × IsCommitted i d
  unfolding watch_loop
  watch_loop-wrote zero n d h = cc
  watch_loop-wrote (suc left) n d h =
      let (decision, e, k) = >>=-returns (body (env n).watched) _ h in
      elim (Option-cases decision) [
        | inl x ↦ ground arith
        | inr (commands, x) ↦ elim (Bool-cases (is_refused S keys (env n))) [
          | inl aborted ↦
              let (i, lo, hi, c) = watch_loop-wrote left (suc n) d (ground arith) in
              (i, omega arith, omega arith, c)
          | inr committed ↦ (
            n,
            omega arith,
            omega arith,
            record {
              commands = commands;
              decision = e ∙ ap returns x;
              accepted = committed;
              result = ground arith;
            },
          )
        ]
      ]

  -- The loop returned false: a round gave up.
  pub watch_loop-skipped :
      (left n : ℕ)
      → watch_loop S left n keys body env ≡ returns skipped
      → (i : ℕ) × (n ≤ i) × (i < left + n) × (body (env i).watched ≡ returns none)
  unfolding watch_loop
  watch_loop-skipped zero n h = cc
  watch_loop-skipped (suc left) n h =
      let (decision, e, k) = >>=-returns (body (env n).watched) _ h in
      elim (Option-cases decision) [
        | inl x ↦ (n, omega arith, omega arith, e ∙ ap returns x)
        | inr (commands, x) ↦ elim (Bool-cases (is_refused S keys (env n))) [
          | inl aborted ↦
              let (i, lo, hi, c) = watch_loop-skipped left (suc n) (ground arith) in
              (i, omega arith, omega arith, c)
          | inr committed ↦ ground arith
        ]
      ]

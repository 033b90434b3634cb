-- ===== src/RedisRepository/Watch.antt =====
-- The loop that the guarded writes of cpp/src/redis_repository.cpp share: watch keys, look at
-- them, and either give up or queue commands that EXEC runs unless a watched key was touched.
pub mod Cases
use mini_ocs_nos.Base.{
  ℕ, zero, suc, ◌≡◌, Bool, false, ◌||◌, Option, none, some, List, [], ◌∷◌, if◌then◌else◌,
}
use mini_ocs_nos.Base.Text.{Text}
use mini_ocs_nos.Base.Outcome.{Outcome, returns, throws, Exception, ◌>>=◌}
use mini_ocs_nos.RedisRepository.Server.{Command, Server, exec}

abbrev pub max_watch_retries : ℕ
max_watch_retries = 8

module _ (S : Server) where
  -- What one round of the loop meets: the database as it is read, the database as EXEC arrives,
  -- and the keys that other clients touched in between.
  pub record Attempt : Type 0 where
    pub watched : S.Db
    pub at_exec : S.Db
    pub touched : Text → Bool

  -- EXEC is refused (a WatchError) if one of the keys that the round watches was touched.
  unfoldable pub is_refused : List Text → Attempt → Bool
  is_refused [] a = false
  is_refused (k ∷ ks) a = a.touched k || is_refused ks a

  -- What a write returns: true with the database that it leaves, or false, after no write.
  pub data Reply : Type 0 where
    wrote : S.Db → Reply
    skipped : Reply

  -- What a round decides on the database that it reads: none to give up, or commands to queue.
  abbrev pub Body : Type 0
  Body = S.Db → Outcome (Option (List Command))

  -- The keys are those that the operation calls watch() with, in its order.
  unfoldable pub watch_loop : ℕ → ℕ → List Text → Body → (ℕ → Attempt) → Outcome Reply
  unfolding is_refused
  watch_loop zero n keys body env = throws Exception.runtime_error
  watch_loop (suc left) n keys body env =
      let rest = watch_loop left (suc n) keys body env in
      body (env n).watched >>= λ decision. elim decision [
        | none ↦ returns skipped
        | some commands ↦
            if is_refused keys (env n)
            then rest
            else returns (wrote (exec S (env n).at_exec commands))
      ]

  -- What a touch is: a key that no other client touched is at EXEC as it was read. Whether an
  -- operation watches a key plays no part in it.
  abbrev pub IsFaithful : Attempt → Type 0
  IsFaithful a =
      (k : Text)
      → a.touched k ≡ false
      → (S.hgetall a.at_exec k ≡ S.hgetall a.watched k)
        × (S.exists a.at_exec k ≡ S.exists a.watched k)

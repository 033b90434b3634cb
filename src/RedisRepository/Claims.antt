-- ===== src/RedisRepository/Claims.antt =====
-- Which pending entries claimPending of cpp/src/redis_repository.cpp asks for.
use mini_ocs_nos.Base.{ℕ, zero, suc, ◌≤◌, ◌≡◌, refl, List, [], ◌∷◌, arith, leb, if◌then◌else◌}
use mini_ocs_nos.Base.Text.{Text}
use mini_ocs_nos.RedisRepository.Streams.{PendingEntry, collect_idle}

-- The ids of the entries that have been idle for long enough.
unfoldable pub idle_ids : ℕ → List PendingEntry → List Text
idle_ids min_idle [] = []
idle_ids min_idle (entry ∷ pending) =
    let rest = idle_ids min_idle pending in
    if leb min_idle entry.idle_ms then entry.id ∷ rest else rest

unfoldable pub take {ℓ} : {A : Type ℓ} → ℕ → List A → List A
take zero xs = []
take (suc n) [] = []
take (suc n) (x ∷ xs) = x ∷ take n xs

-- The loop that stops early collects the first ids, as many as asked for, of the entries that have
-- been idle for long enough, in their order; at least one is asked for.
pub collect_idle-take :
    (wanted min_idle : ℕ) (pending : List PendingEntry)
    → 1 ≤ wanted
    → collect_idle wanted min_idle pending ≡ take wanted (idle_ids min_idle pending)
unfolding collect_idle idle_ids take
collect_idle-take zero min_idle pending h = absurd (omega arith)
collect_idle-take (suc zero) min_idle [] h = refl
collect_idle-take (suc (suc n)) min_idle [] h = refl
collect_idle-take (suc zero) min_idle (entry ∷ pending) h =
    ground (arith, collect_idle-take 1 min_idle pending h)
collect_idle-take (suc (suc n)) min_idle (entry ∷ pending) h = ground (
  arith,
  collect_idle-take (suc (suc n)) min_idle pending h,
  collect_idle-take (suc n) min_idle pending (omega arith),
)

-- ===== src/Orchestrator/Backoff.antt =====
-- The delays of retryAtNs in cpp/src/orchestrator_service.cpp.
use native.Mathlib.Nat.{mul_assoc, one-le-pow, le-mul_of_pos_right}
use mini_ocs_nos.Base.{
  ℕ, zero, suc, ◌+◌, ◌-◌, ◌*◌, ◌/◌, ◌^◌, ◌≤◌, ◌<◌, ◌≡◌, ap, sym, ◌∙◌, false, arith,
}
use mini_ocs_nos.Orchestrator.{ApplyRetryPolicy, is_outside_bounds, double_delay, retry_at_ns}

double_delay_le : (n delay top : ℕ) → delay ≤ top → double_delay n delay top ≤ top
unfolding double_delay
double_delay_le zero delay top h = h
double_delay_le (suc n) delay top h = ground (arith, double_delay_le n (delay * 2) top)

le-double_delay : (n delay top : ℕ) → delay ≤ top → delay ≤ double_delay n delay top
unfolding double_delay
le-double_delay zero delay top h = omega arith
le-double_delay (suc n) delay top h = ground (arith, le-double_delay n (delay * 2) top)

double_delay_mono :
    (n delay top : ℕ) → delay ≤ top → double_delay n delay top ≤ double_delay (suc n) delay top
unfolding double_delay
double_delay_mono zero delay top h = ground arith
double_delay_mono (suc n) delay top h = ground (arith, double_delay_mono n (delay * 2) top)

-- With a policy that the constructor accepts, and as long as the clock does not wrap within the
-- longest delay, a retry is due no sooner than the base delay and no later than the longest one.
pub retry_at_ns_bounds :
    (now attempt : ℕ) (policy : ApplyRetryPolicy)
    → is_outside_bounds policy ≡ false
    → now + policy.max_backoff * 1000000 < 2 ^ 64
    → (now + policy.base_backoff * 1000000 ≤ retry_at_ns now attempt policy)
      × (retry_at_ns now attempt policy ≤ now + policy.max_backoff * 1000000)
unfolding retry_at_ns
retry_at_ns_bounds now attempt policy h w =
    let base_le : policy.base_backoff ≤ policy.max_backoff = ground arith in
    ground (
      arith,
      double_delay_le (attempt - 1) policy.base_backoff policy.max_backoff base_le,
      le-double_delay (attempt - 1) policy.base_backoff policy.max_backoff base_le,
    )

-- With a policy that the constructor accepts, and as long as the clock does not wrap within the
-- longest delay, an attempt from the second on never waits a shorter time than the one before.
pub retry_at_ns_mono :
    (now attempt : ℕ) (policy : ApplyRetryPolicy)
    → is_outside_bounds policy ≡ false
    → now + policy.max_backoff * 1000000 < 2 ^ 64
    → retry_at_ns now (suc attempt) policy ≤ retry_at_ns now (suc (suc attempt)) policy
unfolding retry_at_ns
retry_at_ns_mono now attempt policy h w =
    let base_le : policy.base_backoff ≤ policy.max_backoff = ground arith in
    ground (
      arith,
      double_delay_mono attempt policy.base_backoff policy.max_backoff base_le,
      double_delay_le attempt policy.base_backoff policy.max_backoff base_le,
      double_delay_le (suc attempt) policy.base_backoff policy.max_backoff base_le,
    )

pow_twice : (delay n : ℕ) → delay * 2 ^ suc n ≡ (delay * 2) * 2 ^ n
pow_twice delay n =
    let e : 2 ^ suc n ≡ 2 * 2 ^ n = omega arith in
    ap (λ (x : ℕ). delay * x) e ∙ sym (mul_assoc delay 2 (2 ^ n))

doubled :
    (n delay top : ℕ)
    → 1 ≤ delay
    → delay * 2 ^ n < top / 2
    → double_delay (suc n) delay top ≡ delay * 2 ^ suc n
unfolding double_delay
doubled zero delay top p h = ground arith
doubled (suc n) delay top p h =
    let apart = pow_twice delay n in
    let more = pow_twice delay (suc n) in
    let below : delay ≤ delay * 2 ^ suc n =
      le-mul_of_pos_right delay (one-le-pow (suc n) 2 (omega arith)) in
    let twice : delay * 2 ≤ (delay * 2) * 2 ^ n =
      le-mul_of_pos_right (delay * 2) (one-le-pow n 2 (omega arith)) in
    let small : delay < top / 2 = omega arith in
    let next = doubled n (delay * 2) top (omega arith) (omega (arith, apart)) in
    ground (arith, next, more)

-- While a base delay of at least a millisecond, doubled n times, stays below half of the longest
-- delay, and the clock does not wrap within the longest delay, attempt n + 2 waits for exactly the
-- base delay doubled n + 1 times.
pub retry_at_ns_doubles :
    (now n : ℕ) (policy : ApplyRetryPolicy)
    → 1 ≤ policy.base_backoff
    → policy.base_backoff * 2 ^ n < policy.max_backoff / 2
    → now + policy.max_backoff * 1000000 < 2 ^ 64
    → retry_at_ns now (n + 2) policy ≡ now + policy.base_backoff * 2 ^ (n + 1) * 1000000
unfolding retry_at_ns
retry_at_ns_doubles now n policy p h w =
    let delay : double_delay (suc n) policy.base_backoff policy.max_backoff
        ≡ policy.base_backoff * 2 ^ suc n =
      doubled n policy.base_backoff policy.max_backoff p h in
    let apart = pow_twice policy.base_backoff n in
    let fits : policy.base_backoff * 2 ^ suc n ≤ policy.max_backoff = omega arith in
    ground (arith, delay)

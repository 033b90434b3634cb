-- ===== src/Device/Cells.antt =====
-- Reads and writes through `.at(port - 1)` of cpp/src/simulated_ocs_device.cpp.
use mini_ocs_nos.Base.{
  ℕ, zero, suc, ◌-◌, ◌≤◌, ◌<◌, ◌≡◌, ◌≢◌, refl, ap, some, List, [], ◌∷◌, arith, set, length,
  get_elem?, get_elem?-set_self, get_elem?-set_ne, get_elem?-some, replicate,
}
use mini_ocs_nos.Device.State.{port_at}

module _ {ℓ} {A : Type ℓ} where
  get_elem?-below : (xs : List A) (i : ℕ) (a : A) → get_elem? xs i ≡ some a → i < length xs
  get_elem?-below [] i a e = cc
  get_elem?-below (x ∷ xs) zero a e = omega arith
  get_elem?-below (x ∷ xs) (suc i) a e = omega (arith, get_elem?-below xs i a e)

  pub port_at_range :
      (xs : List A) (p : ℕ) (a : A) → port_at xs p ≡ some a → (1 ≤ p) × (p ≤ length xs)
  unfolding port_at
  port_at_range xs zero a e = cc
  port_at_range xs (suc i) a e = (omega arith, get_elem?-below xs i a e)

  pub port_at-some :
      (xs : List A) (p : ℕ) → 1 ≤ p → p ≤ length xs → (a : A) × (port_at xs p ≡ some a)
  unfolding port_at
  port_at-some xs zero h k = absurd (omega arith)
  port_at-some xs (suc i) h k = get_elem?-some xs i k

  pub port_at-set_self :
      (xs : List A) (p : ℕ) (a v : A)
      → port_at xs p ≡ some a
      → port_at (set xs (p - 1) v) p ≡ some v
  unfolding port_at
  port_at-set_self xs zero a v e = cc
  port_at-set_self xs (suc i) a v e = ground (
    arith,
    get_elem?-below xs i a e,
    get_elem?-set_self xs i v,
    ap (λ (j : ℕ). get_elem? (set xs j v) i) (let q : suc i - 1 ≡ i = omega arith in q),
  )

  pub port_at-set_ne :
      (xs : List A) (p q : ℕ) (a v : A)
      → port_at xs p ≡ some a
      → p ≢ q
      → port_at (set xs (p - 1) v) q ≡ port_at xs q
  unfolding port_at
  port_at-set_ne xs zero q a v e h = cc
  port_at-set_ne xs (suc i) zero a v e h = refl
  port_at-set_ne xs (suc i) (suc j) a v e h = ground (
    arith,
    get_elem?-set_ne xs i j v,
    ap (λ (k : ℕ). get_elem? (set xs k v) j) (let q : suc i - 1 ≡ i = omega arith in q),
  )

  pub port_at-replicate : (n p : ℕ) (a b : A) → port_at (replicate n a) p ≡ some b → b ≡ a
  unfolding port_at
  port_at-replicate n zero a b e = cc
  port_at-replicate zero (suc i) a b e = cc
  port_at-replicate (suc n) (suc zero) a b e = ground arith
  port_at-replicate (suc n) (suc (suc i)) a b e = port_at-replicate n (suc i) a b e

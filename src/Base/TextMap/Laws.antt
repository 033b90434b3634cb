-- ===== src/Base/TextMap/Laws.antt =====
-- Predicates on the entries of an ordered map, and equality of maps from equality of lookups.
use mathlib.Core.Path.{◌≡◌, refl, ap}
use mathlib.Core.List.{[], ◌∷◌}
use mathlib.Core.Option.{some}
use native.Mathlib.Omega.{arith}
use mini_ocs_nos.Base.Text.{Text, compare_text-eq, compare_text-gt}
use mini_ocs_nos.Base.TextMap.{
  TextMap, find, insert_or_assign, erase, Above, Above-mono, IsSorted, find-Above,
}

module _ {ℓ κ} {V : Type ℓ} (P : Text → V → Type κ) where
  abbrev pub AllEntries : TextMap V → Type κ
  AllEntries [] = Unit {κ}
  AllEntries ((k, v) ∷ m) = P k v × AllEntries m

module _ {ℓ κ} {V : Type ℓ} (P : Text → V → Type κ) where
  pub insert_or_assign-AllEntries :
      (k : Text) (v : V) (m : TextMap V)
      → P k v
      → AllEntries P m
      → AllEntries P (insert_or_assign k v m)
  unfolding insert_or_assign
  insert_or_assign-AllEntries k v [] h a = (h, tt)
  insert_or_assign-AllEntries k v ((j, w) ∷ m) h a =
      ground (arith, insert_or_assign-AllEntries k v m h a.1)

  pub erase-AllEntries : (k : Text) (m : TextMap V) → AllEntries P m → AllEntries P (erase k m)
  unfolding erase
  erase-AllEntries k [] a = tt
  erase-AllEntries k ((j, w) ∷ m) a = ground (arith, erase-AllEntries k m a.1)

  pub AllEntries-find :
      (k : Text) (v : V) (m : TextMap V) → AllEntries P m → find k m ≡ some v → P k v
  unfolding find
  AllEntries-find k v [] a e = cc
  AllEntries-find k v ((j, w) ∷ m) a e = ground (arith, AllEntries-find k v m a.1)

module _ {ℓ} {V : Type ℓ} where
  ext_head :
      (j k : Text) (v w : V) (m n : TextMap V)
      → Above j m
      → Above k n
      → find j ((j, v) ∷ m) ≡ find j ((k, w) ∷ n)
      → find k ((j, v) ∷ m) ≡ find k ((k, w) ∷ n)
      → (j ≡ k) × (v ≡ w)
  unfolding find
  ext_head j k v w m n s t hj hk = ground (
    arith,
    compare_text-eq j k,
    compare_text-gt j k,
    find-Above j n,
    find-Above k m,
    Above-mono j k n,
    Above-mono k j m,
  )

  ext_tail :
      (i j k : Text) (v w : V) (m n : TextMap V)
      → j ≡ k
      → Above j m
      → Above k n
      → find i ((j, v) ∷ m) ≡ find i ((k, w) ∷ n)
      → find i m ≡ find i n
  unfolding find
  ext_tail i j k v w m n e s t h = ground (
    arith,
    find-Above j m s,
    find-Above k n t,
    ap (λ (x : Text). find x m) e,
    ap (λ (x : Text). find x n) e,
  )

  -- Two ordered maps with the same lookups are the same map.
  pub IsSorted-ext :
      (m n : TextMap V) → IsSorted m → IsSorted n → ((k : Text) → find k m ≡ find k n) → m ≡ n
  unfolding find
  IsSorted-ext [] [] s t h = refl
  IsSorted-ext [] ((k, w) ∷ n) s t h = ground (arith, h k)
  IsSorted-ext ((j, v) ∷ m) [] s t h = ground (arith, h j)
  IsSorted-ext ((j, v) ∷ m) ((k, w) ∷ n) s t h =
      let (e, f) = ext_head j k v w m n s.0 t.0 (h j) (h k) in
      let rest = IsSorted-ext m n s.1 t.1 (λ i. ext_tail i j k v w m n e s.0 t.0 (h i)) in cc

module _ {ℓ κ μ} {V : Type ℓ} (P : Text → V → Type κ) (Q : Text → V → Type μ) where
  pub AllEntries-mono :
      ((k : Text) (v : V) → P k v → Q k v) → (m : TextMap V) → AllEntries P m → AllEntries Q m
  AllEntries-mono f [] a = tt
  AllEntries-mono f ((k, v) ∷ m) a = (f k v a.0, AllEntries-mono f m a.1)

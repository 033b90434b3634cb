-- ===== src/Base/TextMap.antt =====
-- std::map<std::string, V>: an association list in key order, without duplicate keys
-- (`IsSorted`). Iteration over the map is iteration over the list.
pub mod Laws
pub mod Size
use Prim.Native.Nat.{Ordering}
use mathlib.Core.Path.{◌≡◌, refl, ap}
use mathlib.Core.Logic.{ite}
use mathlib.Core.List.{List, [], ◌∷◌}
use mathlib.Core.Option.{Option, none, some}
use native.Mathlib.Omega.{arith}
use mini_ocs_nos.Base.Text.{
  Text, text_discrete, compare_text, compare_text_refl, compare_text-eq, compare_text-gt, Before,
  Before-trans,
}

abbrev pub TextMap {ℓ} : Type ℓ → Type ℓ
TextMap V = List (Text × V)

module _ {ℓ} {V : Type ℓ} where
  -- m.find(k)
  unfoldable pub find : Text → TextMap V → Option V
  find k [] = none
  find k ((j, w) ∷ m) = ite (text_discrete j k) (some w) (find k m)

  -- m.insert_or_assign(k, v)
  unfoldable pub insert_or_assign : Text → V → TextMap V → TextMap V
  insert_or_assign k v [] = (k, v) ∷ []
  insert_or_assign k v ((j, w) ∷ m) =
      let rest = insert_or_assign k v m in
      elim (compare_text k j) [
        | Ordering.lt ↦ (k, v) ∷ (j, w) ∷ m
        | Ordering.eq ↦ (k, v) ∷ m
        | Ordering.gt ↦ (j, w) ∷ rest
      ]

  -- m.erase(k): without duplicates at most one entry goes.
  unfoldable pub erase : Text → TextMap V → TextMap V
  erase k [] = []
  erase k ((j, w) ∷ m) = let rest = erase k m in ite (text_discrete j k) rest ((j, w) ∷ rest)

  unfoldable pub keys : TextMap V → List Text
  keys [] = []
  keys ((j, w) ∷ m) = j ∷ keys m

  abbrev pub values : TextMap V → List V
  values [] = []
  values ((j, w) ∷ m) = w ∷ values m

  -- Every key of `m` comes after `k`.
  abbrev pub Above : Text → TextMap V → Type 0
  Above k [] = Unit {0}
  Above k ((j, w) ∷ m) = Before k j × Above k m

  abbrev pub IsSorted : TextMap V → Type 0
  IsSorted [] = Unit {0}
  IsSorted ((k, v) ∷ m) = Above k m × IsSorted m

module _ {ℓ} {V : Type ℓ} where
  pub find-insert_or_assign :
      (k j : Text) (v : V) (m : TextMap V)
      → find j (insert_or_assign k v m) ≡ ite (text_discrete k j) (some v) (find j m)
  unfolding find insert_or_assign
  find-insert_or_assign k j v [] = refl
  find-insert_or_assign k j v ((i, w) ∷ m) =
      ground (arith, find-insert_or_assign k j v m, compare_text-eq k i, compare_text_refl k)

  pub find-erase :
      (k j : Text) (m : TextMap V) → find j (erase k m) ≡ ite (text_discrete k j) none (find j m)
  unfolding find erase
  find-erase k j [] = ground arith
  find-erase k j ((i, w) ∷ m) = ground (arith, find-erase k j m)

  pub Above-mono : (a b : Text) (m : TextMap V) → Before a b → Above b m → Above a m
  Above-mono a b [] h k = tt
  Above-mono a b ((j, w) ∷ m) h k = (Before-trans a b j h k.0, Above-mono a b m h k.1)

  Above-insert_or_assign :
      (a k : Text) (v : V) (m : TextMap V)
      → Before a k
      → Above a m
      → Above a (insert_or_assign k v m)
  unfolding insert_or_assign
  Above-insert_or_assign a k v [] h b = (h, tt)
  Above-insert_or_assign a k v ((j, w) ∷ m) h b =
      ground (arith, Above-insert_or_assign a k v m h b.1)

  Above-erase : (a k : Text) (m : TextMap V) → Above a m → Above a (erase k m)
  unfolding erase
  Above-erase a k [] b = tt
  Above-erase a k ((j, w) ∷ m) b = ground (arith, Above-erase a k m b.1)

  pub insert_or_assign-IsSorted :
      (k : Text) (v : V) (m : TextMap V) → IsSorted m → IsSorted (insert_or_assign k v m)
  unfolding insert_or_assign
  insert_or_assign-IsSorted k v [] s = (tt, tt)
  insert_or_assign-IsSorted k v ((j, w) ∷ m) s = ground (
    arith,
    Above-mono k j m,
    Above-insert_or_assign j k v m,
    insert_or_assign-IsSorted k v m s.1,
    compare_text-gt k j,
    compare_text-eq k j,
    ap (λ (t : Text). Above t m),
  )

  pub erase-IsSorted : (k : Text) (m : TextMap V) → IsSorted m → IsSorted (erase k m)
  unfolding erase
  erase-IsSorted k [] s = tt
  erase-IsSorted k ((j, w) ∷ m) s = ground (arith, Above-erase j k m s.0, erase-IsSorted k m s.1)

  pub find-Above : (a : Text) (m : TextMap V) → Above a m → find a m ≡ none
  unfolding find
  find-Above a [] b = refl
  find-Above a ((j, w) ∷ m) b = ground (arith, find-Above a m b.1, compare_text_refl a)

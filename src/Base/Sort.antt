-- ===== src/Base/Sort.antt =====
-- std::ranges::sort by a text key, and std::ranges::adjacent_find on the sorted range. The sort
-- keeps elements of equal keys in order, which std::ranges::sort leaves open.
use Prim.Native.Nat.{Ordering}
use mathlib.Core.Path.{◌≡◌, refl, ap, ◌∙◌}
use mathlib.Core.Logic.{◌≢◌, ite}
use mathlib.Core.Bool.{Bool, true, false}
use mathlib.Core.Option.{Option, none, some}
use mathlib.Core.List.{List, [], ◌∷◌, ◌++◌}
use native.Mathlib.Omega.{arith}
use mini_ocs_nos.Base.Text.{
  Text, text_discrete, compare_text, compare_text_refl, compare_text-eq, compare_text-gt, Before,
}
use mini_ocs_nos.Base.TextMap.{TextMap, find, Above, Above-mono, IsSorted, find-Above}

module _ {ℓ} {A : Type ℓ} (key : A → Text) where
  unfoldable pub insert_by : A → List A → List A
  insert_by x [] = x ∷ []
  insert_by x (y ∷ ys) =
      let rest = insert_by x ys in
      elim (compare_text (key x) (key y)) [ Ordering.gt ↦ y ∷ rest | _ ↦ x ∷ y ∷ ys ]

  unfoldable pub sort_by : List A → List A
  sort_by [] = []
  sort_by (x ∷ xs) = insert_by x (sort_by xs)

  -- Two neighbours with the same key.
  unfoldable pub adjacent_find : List A → Bool
  adjacent_find [] = false
  adjacent_find (x ∷ []) = false
  adjacent_find (x ∷ y ∷ ys) =
      let rest = adjacent_find (y ∷ ys) in ite (text_discrete (key x) (key y)) true rest

  -- The last element with a key.
  unfoldable pub latest : Text → List A → Option A
  latest k [] = none
  latest k (x ∷ xs) = elim (latest k xs) [
    | some later ↦ some later
    | none ↦ ite (text_discrete (key x) k) (some x) none
  ]

  -- The elements under their keys.
  unfoldable pub keyed : List A → TextMap A
  keyed [] = []
  keyed (x ∷ xs) = (key x, x) ∷ keyed xs

strictly-Before :
    (a b : Text) (r : Bool)
    → compare_text a b ≢ Ordering.gt
    → ite (text_discrete a b) true r ≡ false
    → Before a b
strictly-Before a b r h k = ground (arith, compare_text-eq a b)

right_false : (a b : Text) (r : Bool) → ite (text_discrete a b) true r ≡ false → r ≡ false
right_false a b r h = ground arith

module _ {ℓ} {A : Type ℓ} (key : A → Text) where
  latest-insert_by :
      (k : Text) (x : A) (xs : List A) → latest key k (insert_by key x xs) ≡ latest key k (x ∷ xs)
  unfolding latest insert_by
  latest-insert_by k x [] = refl
  latest-insert_by k x (y ∷ ys) = ground (arith, latest-insert_by k x ys, compare_text_refl (key x))

  pub latest-sort_by : (k : Text) (xs : List A) → latest key k (sort_by key xs) ≡ latest key k xs
  unfolding latest sort_by
  latest-sort_by k [] = refl
  latest-sort_by k (x ∷ xs) =
      ground (arith, latest-insert_by k x (sort_by key xs), latest-sort_by k xs)

  pub latest-append :
      (k : Text) (xs ys : List A)
      → latest key k (xs ++ ys)
        ≡ elim (latest key k ys) [ some y ↦ some y | none ↦ latest key k xs ]
  unfolding latest
  latest-append k [] ys = ground arith
  latest-append k (x ∷ xs) ys = ground (arith, latest-append k xs ys)

  NotAfter : A → List A → Type 0
  NotAfter x [] = Unit
  NotAfter x (y ∷ ys) = compare_text (key x) (key y) ≢ Ordering.gt

  InOrder : List A → Type 0
  InOrder [] = Unit
  InOrder (x ∷ xs) = NotAfter x xs × InOrder xs

  NotAfter-insert_by :
      (y x : A) (xs : List A)
      → compare_text (key y) (key x) ≢ Ordering.gt
      → NotAfter y xs
      → NotAfter y (insert_by key x xs)
  unfolding NotAfter insert_by
  NotAfter-insert_by y x [] h n = h
  NotAfter-insert_by y x (z ∷ zs) h n = ground arith

  insert_by-InOrder : (x : A) (xs : List A) → InOrder xs → InOrder (insert_by key x xs)
  unfolding NotAfter InOrder insert_by
  insert_by-InOrder x [] o = (tt, tt)
  insert_by-InOrder x (y ∷ ys) o = ground (
    arith,
    insert_by-InOrder x ys o.1,
    NotAfter-insert_by y x ys,
    compare_text-gt (key x) (key y),
  )

  sort_by-InOrder : (xs : List A) → InOrder (sort_by key xs)
  unfolding InOrder sort_by
  sort_by-InOrder [] = tt
  sort_by-InOrder (x ∷ xs) = insert_by-InOrder x (sort_by key xs) (sort_by-InOrder xs)

  keyed-IsSorted :
      (xs : List A) → InOrder xs → adjacent_find key xs ≡ false → IsSorted (keyed key xs)
  unfolding NotAfter InOrder adjacent_find keyed
  keyed-IsSorted [] o h = tt
  keyed-IsSorted (x ∷ []) o h = (tt, tt)
  keyed-IsSorted (x ∷ y ∷ ys) o h =
      let before = strictly-Before (key x) (key y) _ o.0 h in
      let rest = keyed-IsSorted (y ∷ ys) o.1 (right_false _ _ _ h) in
      ((before, Above-mono (key x) (key y) (keyed key ys) before rest.0), rest)

  -- A sorted list without equal neighbours has strictly rising keys.
  pub sort_by-IsSorted :
      (xs : List A)
      → adjacent_find key (sort_by key xs) ≡ false
      → IsSorted (keyed key (sort_by key xs))
  sort_by-IsSorted xs = keyed-IsSorted (sort_by key xs) (sort_by-InOrder xs)

  pub find-keyed :
      (k : Text) (xs : List A) → IsSorted (keyed key xs) → find k (keyed key xs) ≡ latest key k xs
  unfolding find keyed latest
  find-keyed k [] s = refl
  find-keyed k (x ∷ xs) s =
      ground (arith, find-keyed k xs s.1, find-Above (key x) (keyed key xs) s.0)

  insert_by_first :
      (x : A) (xs : List A) → Above (key x) (keyed key xs) → insert_by key x xs ≡ x ∷ xs
  unfolding insert_by keyed
  insert_by_first x [] s = refl
  insert_by_first x (y ∷ ys) s = ground arith

  -- A list with strictly rising keys is sorted already.
  pub sort_by_sorted : (xs : List A) → IsSorted (keyed key xs) → sort_by key xs ≡ xs
  unfolding sort_by keyed
  sort_by_sorted [] s = refl
  sort_by_sorted (x ∷ xs) s =
      ap (insert_by key x) (sort_by_sorted xs s.1) ∙ insert_by_first x xs s.0

  pub adjacent_find_sorted : (xs : List A) → IsSorted (keyed key xs) → adjacent_find key xs ≡ false
  unfolding adjacent_find keyed
  adjacent_find_sorted [] s = refl
  adjacent_find_sorted (x ∷ []) s = refl
  adjacent_find_sorted (x ∷ y ∷ ys) s =
      ground (arith, adjacent_find_sorted (y ∷ ys) s.1, compare_text_refl (key x))

  insert_by_nonempty : (x : A) (xs : List A) → insert_by key x xs ≢ []
  unfolding insert_by
  insert_by_nonempty x [] e = cc
  insert_by_nonempty x (y ∷ ys) e = ground arith

  pub sort_by_empty : (xs : List A) → sort_by key xs ≡ [] → xs ≡ []
  unfolding sort_by
  sort_by_empty [] h = refl
  sort_by_empty (x ∷ xs) h = absurd (insert_by_nonempty x (sort_by key xs) h)

-- ===== src/Base/Distinct.antt =====
-- Lists whose keys are pairwise different, and the test that std::ranges::adjacent_find makes of
-- them on the sorted list.
use mathlib.Core.Path.{◌≡◌, refl}
use mathlib.Core.Logic.{◌≢◌, ◌↔◌}
use mathlib.Core.Bool.{false}
use mathlib.Core.List.{List, [], ◌∷◌}
use native.Mathlib.Omega.{arith}
use mini_ocs_nos.Base.Lists.{All}
use mini_ocs_nos.Base.Text.{Text, compare_text_refl}
use mini_ocs_nos.Base.TextMap.{Above, IsSorted}
use mini_ocs_nos.Base.Sort.{insert_by, sort_by, adjacent_find, keyed, sort_by-IsSorted}

module _ {ℓ} {A : Type ℓ} (key : A → Text) where
  abbrev pub Other : A → A → Type 0
  Other x y = key x ≢ key y

  -- No two elements have the same key.
  abbrev pub Distinct : List A → Type 0
  Distinct [] = Unit {0}
  Distinct (x ∷ xs) = All (Other x) xs × Distinct xs

module _ {ℓ} {A : Type ℓ} (key : A → Text) where
  All-insert_by :
      (z x : A) (xs : List A)
      → All (Other key z) (insert_by key x xs) ↔ (Other key z x × All (Other key z) xs)
  unfolding insert_by
  All-insert_by z x [] = ground arith
  All-insert_by z x (y ∷ ys) = ground (arith, All-insert_by z x ys)

  Distinct-insert_by :
      (x : A) (xs : List A)
      → Distinct key (insert_by key x xs) ↔ (All (Other key x) xs × Distinct key xs)
  unfolding insert_by
  Distinct-insert_by x [] = ground arith
  Distinct-insert_by x (y ∷ ys) = ground (arith, Distinct-insert_by x ys, All-insert_by y x ys)

  All-sort_by : (z : A) (xs : List A) → All (Other key z) (sort_by key xs) ↔ All (Other key z) xs
  unfolding sort_by
  All-sort_by z [] = ground arith
  All-sort_by z (x ∷ xs) = ground (arith, All-insert_by z x (sort_by key xs), All-sort_by z xs)

  Distinct-sort_by : (xs : List A) → Distinct key (sort_by key xs) ↔ Distinct key xs
  unfolding sort_by
  Distinct-sort_by [] = ground arith
  Distinct-sort_by (x ∷ xs) =
      ground (arith, Distinct-insert_by x (sort_by key xs), All-sort_by x xs, Distinct-sort_by xs)

  Above-Other : (x : A) (xs : List A) → Above (key x) (keyed key xs) → All (Other key x) xs
  unfolding keyed
  Above-Other x [] s = tt
  Above-Other x (y ∷ ys) s = ground (arith, compare_text_refl (key x), Above-Other x ys s.1)

  IsSorted-Distinct : (xs : List A) → IsSorted (keyed key xs) → Distinct key xs
  unfolding keyed
  IsSorted-Distinct [] s = tt
  IsSorted-Distinct (x ∷ xs) s = (Above-Other x xs s.0, IsSorted-Distinct xs s.1)

  Distinct-adjacent_find : (xs : List A) → Distinct key xs → adjacent_find key xs ≡ false
  unfolding adjacent_find
  Distinct-adjacent_find [] u = refl
  Distinct-adjacent_find (x ∷ []) u = refl
  Distinct-adjacent_find (x ∷ y ∷ ys) u = ground (arith, Distinct-adjacent_find (y ∷ ys) u.1)

  -- The sorted list has no equal neighbours exactly if no key repeats.
  pub adjacent_find_iff :
      (xs : List A) → (adjacent_find key (sort_by key xs) ≡ false) ↔ Distinct key xs
  adjacent_find_iff xs = (
    λ h. (Distinct-sort_by xs).0 (IsSorted-Distinct (sort_by key xs) (sort_by-IsSorted key xs h)),
    λ u. Distinct-adjacent_find (sort_by key xs) ((Distinct-sort_by xs).1 u),
  )

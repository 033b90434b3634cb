-- ===== src/Base/TextMap/Size.antt =====
-- The number of entries of an ordered map under insertion and removal.
use mathlib.Core.Path.{◌≡◌, refl, ap}
use mathlib.Core.List.{[], ◌∷◌}
use mathlib.Core.Option.{none, some}
use native.Mathlib.Omega.{arith}
use Prim.Native.Nat.{suc}
use mini_ocs_nos.Base.Lists.{length}
use mini_ocs_nos.Base.Text.{Text, compare_text-eq}
use mini_ocs_nos.Base.TextMap.{TextMap, find, insert_or_assign, erase, IsSorted, find-Above}

module _ {ℓ} {V : Type ℓ} where
  pub length-insert_new :
      (k : Text) (v : V) (m : TextMap V)
      → find k m ≡ none
      → length (insert_or_assign k v m) ≡ suc (length m)
  unfolding find insert_or_assign
  length-insert_new k v [] e = refl
  length-insert_new k v ((j, w) ∷ m) e =
      ground (arith, length-insert_new k v m, compare_text-eq k j)

  pub erase_absent : (k : Text) (m : TextMap V) → find k m ≡ none → erase k m ≡ m
  unfolding find erase
  erase_absent k [] e = refl
  erase_absent k ((j, w) ∷ m) e = ground (arith, erase_absent k m)

  pub length-erase :
      (k : Text) (v : V) (m : TextMap V)
      → IsSorted m
      → find k m ≡ some v
      → suc (length (erase k m)) ≡ length m
  unfolding find erase
  length-erase k v [] s e = cc
  length-erase k v ((j, w) ∷ m) s e = ground (
    arith,
    length-erase k v m s.1,
    erase_absent j m (find-Above j m s.0),
    ap (λ (x : Text). length (erase x m)),
  )

-- ===== src/Prelude/Map/Total.antt =====
-- The sum of the values of a map, as `insert` changes it.
use Prim.Native.Nat.{ℕ, ◌+◌}
use mathlib.Core.Path.{◌≡◌, refl}
use mathlib.Core.Option.{none, some}
use mathlib.Core.List.{[], ◌∷◌}
use native.Mathlib.Omega.{arith}
use vision_core.Prelude.Tests.{unwrap_or}
use vision_core.Prelude.Text.{Text, text_eq, text_eq_iff}
use vision_core.Prelude.Map.{Map, get, insert, remove, After, IsSorted}
use vision_core.Prelude.Lists.{length}
use vision_core.Prelude.Map.Laws.{get-After, After-trans}

unfoldable pub total : Map ℕ → ℕ
total [] = 0
total ((k, v) ∷ m) = v + total m

pub total-insert :
    (k : Text) (v : ℕ) (m : Map ℕ)
    → IsSorted m
    → total (insert k v m) + unwrap_or (get k m) 0 ≡ total m + v
unfolding total insert get
total-insert k v [] s = omega arith
total-insert k v ((j, w) ∷ m) s =
    ground (arith, total-insert k v m s.1, get-After k m, After-trans k j m, s.0)

module _ {ℓ} {V : Type ℓ} where
  pub remove-After : (k : Text) (m : Map V) → After k m → remove k m ≡ m
  unfolding remove text_eq
  remove-After k [] a = refl
  remove-After k ((j, w) ∷ m) a = ground (arith, remove-After k m a.1)

  -- A key that an ordered map holds is removed once.
  pub length-remove :
      (k : Text) (v : V) (m : Map V)
      → IsSorted m
      → get k m ≡ some v
      → length (remove k m) + 1 ≡ length m
  unfolding get remove
  length-remove k v [] s h = cc
  length-remove k v ((j, w) ∷ m) s h =
      ground (arith, length-remove k v m s.1, text_eq_iff k j, remove-After k m, s.0)

  pub remove_absent : (k : Text) (m : Map V) → get k m ≡ none → remove k m ≡ m
  unfolding get remove
  remove_absent k [] h = refl
  remove_absent k ((j, w) ∷ m) h = ground (arith, remove_absent k m)

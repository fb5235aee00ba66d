-- ===== src/Prelude/Map/Laws.antt =====
-- The map laws: lookup after each operation, and the order of the keys.
use Prim.Native.Nat.Ordering.{lt}
use mathlib.Core.Path.{◌≡◌, refl}
use mathlib.Core.Option.{none, some}
use mathlib.Core.List.{[], ◌∷◌}
use native.Mathlib.Omega.{arith}
use vision_core.Prelude.Tests.{if◌then◌else◌}
use vision_core.Prelude.Text.{Text, cmp, text_eq, text_eq_iff, eq_of_cmp, lt_of_gt, lt_trans}
use vision_core.Prelude.Map.{Map, get, insert, remove, After, IsSorted}

module _ {ℓ} {V : Type ℓ} where
  pub get-insert :
      (k j : Text) (v : V) (m : Map V)
      → get j (insert k v m) ≡ (if text_eq k j then some v else get j m)
  unfolding get insert
  get-insert k j v [] = ground (arith, text_eq_iff k j, text_eq_iff j k)
  get-insert k j v ((i, w) ∷ m) = ground (
    arith,
    get-insert k j v m,
    text_eq_iff k j,
    text_eq_iff j k,
    text_eq_iff i j,
    text_eq_iff j i,
    eq_of_cmp k i,
  )

  pub get-remove :
      (k j : Text) (m : Map V) → get j (remove k m) ≡ (if text_eq k j then none else get j m)
  unfolding get remove
  get-remove k j [] = ground arith
  get-remove k j ((i, w) ∷ m) =
      ground (arith, get-remove k j m, text_eq_iff k j, text_eq_iff k i, text_eq_iff j i)

  pub After-trans : (k j : Text) (m : Map V) → cmp k j ≡ lt → After j m → After k m
  After-trans k j [] h a = tt
  After-trans k j ((i, w) ∷ m) h a = (lt_trans k j i h a.0, After-trans k j m h a.1)

  -- A key below all others is absent.
  pub get-After : (k : Text) (m : Map V) → After k m → get k m ≡ none
  unfolding get text_eq
  get-After k [] a = refl
  get-After k ((i, w) ∷ m) a = ground (arith, get-After k m a.1)

  After-insert :
      (i k : Text) (v : V) (m : Map V) → cmp i k ≡ lt → After i m → After i (insert k v m)
  unfolding insert
  After-insert i k v [] h a = (h, tt)
  After-insert i k v ((j, w) ∷ m) h a = ground (arith, After-insert i k v m h a.1)

  pub insert-IsSorted : (k : Text) (v : V) (m : Map V) → IsSorted m → IsSorted (insert k v m)
  unfolding insert
  insert-IsSorted k v [] s = (tt, tt)
  insert-IsSorted k v ((j, w) ∷ m) s = ground (
    arith,
    insert-IsSorted k v m s.1,
    After-trans k j m,
    After-insert j k v m,
    lt_of_gt k j,
    eq_of_cmp k j,
    s.0,
  )

  After-remove : (i k : Text) (m : Map V) → After i m → After i (remove k m)
  unfolding remove
  After-remove i k [] a = tt
  After-remove i k ((j, w) ∷ m) a = ground (arith, After-remove i k m a.1)

  pub remove-IsSorted : (k : Text) (m : Map V) → IsSorted m → IsSorted (remove k m)
  unfolding remove
  remove-IsSorted k [] s = tt
  remove-IsSorted k ((j, w) ∷ m) s = ground (arith, remove-IsSorted k m s.1, After-remove j k m s.0)

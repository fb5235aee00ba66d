-- ===== src/Prelude/Map.antt =====
-- `BTreeMap` and `BTreeSet` as key-ordered association lists; `HashMap` by the same functions,
-- where the program never iterates over it.
pub mod Laws
pub mod Total
use Prim.Native.Nat.{Ordering}
use Prim.Native.Nat.Ordering.{lt, eq, gt}
use mathlib.Core.Path.{◌≡◌}
use mathlib.Core.Bool.{Bool}
use mathlib.Core.Option.{Option, none, some}
use mathlib.Core.List.{List, [], ◌∷◌, map}
use vision_core.Prelude.Tests.{if◌then◌else◌, is_some}
use vision_core.Prelude.Text.{Text, cmp, text_eq}

abbrev pub Map {ℓ} : Type ℓ → Type ℓ
Map V = List (Text × V)

module _ {ℓ} {V : Type ℓ} where
  unfoldable pub get : Text → Map V → Option V
  unfolding text_eq
  get k [] = none
  get k ((j, v) ∷ m) = if text_eq k j then some v else get k m

  unfoldable pub insert : Text → V → Map V → Map V
  unfolding cmp
  insert k v [] = (k, v) ∷ []
  insert k v ((j, w) ∷ m) = elim (cmp k j) [
    | lt ↦ (k, v) ∷ (j, w) ∷ m
    | eq ↦ (k, v) ∷ m
    | gt ↦ (j, w) ∷ insert k v m
  ]

  unfoldable pub remove : Text → Map V → Map V
  unfolding text_eq
  remove k [] = []
  remove k ((j, v) ∷ m) = let rest = remove k m in if text_eq k j then rest else (j, v) ∷ rest

  abbrev pub contains_key : Text → Map V → Bool
  contains_key k m = is_some (get k m)

  abbrev pub values : Map V → List V
  values = map (λ e. e.1)

  abbrev pub keys : Map V → List Text
  keys = map (λ e. e.0)

  -- Every key of the map comes after `k`.
  abbrev pub After : Text → Map V → Type 0
  After k [] = Unit
  After k ((j, v) ∷ m) = (cmp k j ≡ lt) × After k m

  -- The keys rise along the list: the order in which a B-tree iterates.
  abbrev pub IsSorted : Map V → Type 0
  IsSorted [] = Unit
  IsSorted ((j, v) ∷ m) = After j m × IsSorted m

-- ===== src/Prelude/Text.antt =====
-- Rust's `String` and `&str` as their UTF-8 bytes, with the bytewise order of `Ord for str`.
use Prim.Native.Nat.{ℕ, compare, Ordering}
use Prim.Native.Nat.Ordering.{lt, eq, gt}
use Prim.Native.Char.{code}
use Prim.Native.String.{String}
use mathlib.Core.Path.{◌≡◌, refl}
use mathlib.Core.Logic.{◌↔◌}
use mathlib.Core.Bool.{Bool, true, false}
use mathlib.Core.List.{List, [], ◌∷◌}
use native.Mathlib.Omega.{arith}

abbrev pub Text : Type 0
Text = List ℕ

-- The bytes of an ASCII literal.
abbrev pub text : String → Text
text String.[] = []
text (String.◌∷◌ c s) = code c ∷ text s

abbrev pub then : Ordering → Ordering → Ordering
then eq second = second
then first _ = first

unfoldable pub cmp : Text → Text → Ordering
cmp [] [] = eq
cmp [] (b ∷ bs) = lt
cmp (a ∷ as') [] = gt
cmp (a ∷ as') (b ∷ bs) = then (compare a b) (cmp as' bs)

pub cmp_refl : (s : Text) → cmp s s ≡ eq
unfolding cmp
cmp_refl [] = refl
cmp_refl (a ∷ s) = ground (arith, cmp_refl s)

pub eq_of_cmp : (s t : Text) → cmp s t ≡ eq → s ≡ t
unfolding cmp
eq_of_cmp [] [] h = refl
eq_of_cmp [] (b ∷ t) h = cc
eq_of_cmp (a ∷ s) [] h = cc
eq_of_cmp (a ∷ s) (b ∷ t) h = ground (arith, eq_of_cmp s t)

pub gt_of_lt : (s t : Text) → cmp s t ≡ lt → cmp t s ≡ gt
unfolding cmp
gt_of_lt [] [] h = cc
gt_of_lt [] (b ∷ t) h = refl
gt_of_lt (a ∷ s) [] h = cc
gt_of_lt (a ∷ s) (b ∷ t) h = ground (arith, gt_of_lt s t)

pub lt_of_gt : (s t : Text) → cmp s t ≡ gt → cmp t s ≡ lt
unfolding cmp
lt_of_gt [] [] h = cc
lt_of_gt [] (b ∷ t) h = cc
lt_of_gt (a ∷ s) [] h = refl
lt_of_gt (a ∷ s) (b ∷ t) h = ground (arith, lt_of_gt s t)

pub lt_trans : (s t u : Text) → cmp s t ≡ lt → cmp t u ≡ lt → cmp s u ≡ lt
unfolding cmp
lt_trans [] [] u h k = cc
lt_trans [] (b ∷ t) [] h k = cc
lt_trans [] (b ∷ t) (c ∷ u) h k = refl
lt_trans (a ∷ s) [] u h k = cc
lt_trans (a ∷ s) (b ∷ t) [] h k = cc
lt_trans (a ∷ s) (b ∷ t) (c ∷ u) h k = ground (arith, lt_trans s t u)

unfoldable pub text_eq : Text → Text → Bool
unfolding cmp
text_eq s t = elim (cmp s t) [ eq ↦ true | _ ↦ false ]

pub text_eq_iff : (s t : Text) → (text_eq s t ≡ true) ↔ (s ≡ t)
unfolding text_eq
text_eq_iff s t = (λ h. eq_of_cmp s t (ground arith), λ h. ground (arith, cmp_refl t))

pub text_eq_refl : (s : Text) → text_eq s s ≡ true
text_eq_refl s = (text_eq_iff s s).1 refl

-- ===== src/Prelude/Bytes/Order.antt =====
-- Big-endian bytes of one length compare as their numbers do.
use Prim.Native.Nat.{ℕ, zero, suc, ◌+◌, ◌*◌, ◌/◌, ◌^◌, ◌<◌, ◌≤◌, compare}
use mathlib.Core.Path.{◌≡◌, refl}
use mathlib.Core.List.{[], ◌∷◌, ◌++◌, reverse, reverse-cons}
use native.Mathlib.Omega.{arith}
use native.Mathlib.Nat.{pow-suc}
use vision_core.Prelude.Lists.{length, All, All-append}
use vision_core.Prelude.Text.{cmp, then}
use vision_core.Prelude.Bytes.{Bytes, to_le_bytes, from_le_bytes, to_be_bytes, from_be_bytes}
use vision_core.Prelude.Bytes.Codec.{length-reverse}

abbrev pub AreBytes : Bytes → Type 0
AreBytes = All (λ b. b < 256)

from_le-append :
    (xs : Bytes) (y : ℕ) → from_le_bytes (xs ++ y ∷ []) ≡ from_le_bytes xs + 256 ^ length xs * y
unfolding from_le_bytes
from_le-append [] y = omega arith
from_le-append (x ∷ xs) y = rw pow-suc (omega (arith, from_le-append xs y))

from_be-cons :
    (x : ℕ) (xs : Bytes) → from_be_bytes (x ∷ xs) ≡ from_be_bytes xs + 256 ^ length xs * x
unfolding from_be_bytes
from_be-cons x xs = rw reverse-cons (rw (from_le-append (reverse xs) x, length-reverse xs))

pub from_be-lt : (xs : Bytes) → AreBytes xs → from_be_bytes xs < 256 ^ length xs
from_be-lt [] h = unfold from_be_bytes in omega arith
from_be-lt (x ∷ xs) h =
    rw pow-suc (omega (arith, from_be-cons x xs, from_be-lt xs h.1, top x (256 ^ length xs) h.0))
  where
    top : (x p : ℕ) → x < 256 → p * x + p ≤ p * 256
    top x p h = grind arith

mul_gap : (p x y : ℕ) → x < y → p * x + p ≤ p * y
mul_gap p x y h = grind arith

-- The leading digit decides, and the rest where the leading digits agree.
compare_digits :
    (p x y r s : ℕ)
    → r < p
    → s < p
    → then (compare x y) (compare r s) ≡ compare (r + p * x) (s + p * y)
compare_digits p x y r s hr hs = ground (arith, mul_gap p x y, mul_gap p y x)

pub cmp-from_be :
    (xs ys : Bytes)
    → length xs ≡ length ys
    → AreBytes xs
    → AreBytes ys
    → cmp xs ys ≡ compare (from_be_bytes xs) (from_be_bytes ys)
unfolding cmp
cmp-from_be [] [] e hx hy = unfold from_be_bytes in refl
cmp-from_be [] (y ∷ ys) e hx hy = absurd (omega arith)
cmp-from_be (x ∷ xs) [] e hx hy = absurd (omega arith)
cmp-from_be (x ∷ xs) (y ∷ ys) e hx hy =
    let ih = cmp-from_be xs ys (omega arith) hx.1 hy.1 in
    let same : length ys ≡ length xs = omega arith in
    let ly : from_be_bytes ys < 256 ^ length xs = rw (← same) (from_be-lt ys hy.1) in
    rw (from_be-cons x xs, from_be-cons y ys, same)
      (rw ih (compare_digits (256 ^ length xs) x y _ _ (from_be-lt xs hx.1) ly))

reverse-AreBytes : (xs : Bytes) → AreBytes xs → AreBytes (reverse xs)
reverse-AreBytes [] h = h
reverse-AreBytes (x ∷ xs) h =
    rw reverse-cons (All-append _ (reverse xs) (x ∷ []) (reverse-AreBytes xs h.1) (h.0, tt))

to_le_bytes-AreBytes : (w n : ℕ) → AreBytes (to_le_bytes w n)
unfolding to_le_bytes
to_le_bytes-AreBytes zero n = tt
to_le_bytes-AreBytes (suc w) n = (omega arith, to_le_bytes-AreBytes w (n / 256))

pub to_be_bytes-AreBytes : (w n : ℕ) → AreBytes (to_be_bytes w n)
unfolding to_be_bytes
to_be_bytes-AreBytes w n = reverse-AreBytes _ (to_le_bytes-AreBytes w n)

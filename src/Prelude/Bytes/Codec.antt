-- ===== src/Prelude/Bytes/Codec.antt =====
-- Laws of the fixed-width encodings.
use mathlib.Core.List.{reverse-reverse, reverse-cons}
use native.Mathlib.Nat.{pow-suc}
use Prim.Native.Nat.{ℕ, zero, suc, ◌*◌, ◌/◌, ◌^◌, ◌<◌}
use mathlib.Core.Path.{◌≡◌, refl, ap, sym, ◌∙◌}
use mathlib.Core.List.{[], ◌∷◌, ◌++◌, reverse}
use native.Mathlib.Omega.{arith}
use vision_core.Prelude.Lists.{length, length-append}
use vision_core.Prelude.Bytes.{Bytes, to_le_bytes, from_le_bytes, to_be_bytes, from_be_bytes}

pub length-to_le_bytes : (w n : ℕ) → length (to_le_bytes w n) ≡ w
unfolding to_le_bytes
length-to_le_bytes zero n = refl
length-to_le_bytes (suc w) n = ap suc (length-to_le_bytes w (n / 256))

pub from_le-to_le : (w n : ℕ) → n < 256 ^ w → from_le_bytes (to_le_bytes w n) ≡ n
unfolding to_le_bytes from_le_bytes
from_le-to_le zero n h = omega arith
from_le-to_le (suc w) n h =
    let bound : n < 256 ^ w * 256 = rw (← pow-suc) h in
    omega (arith, from_le-to_le w (n / 256) (omega arith))

pub to_le_bytes-injective :
    (w m n : ℕ) → m < 256 ^ w → n < 256 ^ w → to_le_bytes w m ≡ to_le_bytes w n → m ≡ n
to_le_bytes-injective w m n hm hn e =
    sym (from_le-to_le w m hm) ∙ ap from_le_bytes e ∙ from_le-to_le w n hn

pub from_be-to_be : (w n : ℕ) → n < 256 ^ w → from_be_bytes (to_be_bytes w n) ≡ n
unfolding to_be_bytes from_be_bytes
from_be-to_be w n h = rw reverse-reverse (from_le-to_le w n h)

pub to_be_bytes-injective :
    (w m n : ℕ) → m < 256 ^ w → n < 256 ^ w → to_be_bytes w m ≡ to_be_bytes w n → m ≡ n
to_be_bytes-injective w m n hm hn e =
    sym (from_be-to_be w m hm) ∙ ap from_be_bytes e ∙ from_be-to_be w n hn

pub length-reverse : (xs : Bytes) → length (reverse xs) ≡ length xs
length-reverse [] = refl
length-reverse (x ∷ xs) =
    omega
      (arith, ap length (reverse-cons x xs), length-append (reverse xs) (x ∷ []), length-reverse xs)

pub length-to_be_bytes : (w n : ℕ) → length (to_be_bytes w n) ≡ w
unfolding to_be_bytes
length-to_be_bytes w n = length-reverse (to_le_bytes w n) ∙ length-to_le_bytes w n

-- Two splits of one list at the same length agree.
pub append-injective :
    (xs ys ps qs : Bytes) → length xs ≡ length ys → xs ++ ps ≡ ys ++ qs → (xs ≡ ys) × (ps ≡ qs)
append-injective [] [] ps qs h e = (refl, e)
append-injective [] (y ∷ ys) ps qs h e = absurd (omega arith)
append-injective (x ∷ xs) [] ps qs h e = absurd (omega arith)
append-injective (x ∷ xs) (y ∷ ys) ps qs h e =
    ground (arith, append-injective xs ys ps qs (omega arith))

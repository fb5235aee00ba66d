-- ===== src/Visionx/Words/Bounds.antt =====
-- Indices under a mask, and the length of a digest.
use Prim.Native.Nat.{bit_and, bit_and-bitwise, digits}
use vision_core.Prelude.{ℕ, zero, suc, ◌/◌, ◌≤◌, ◌≡◌, min, arith, length, length-append, ◌++◌}
use vision_core.Prelude.Bytes.{to_be_bytes}
use vision_core.Prelude.Bytes.Codec.{length-to_be_bytes}
use vision_core.Visionx.Words.{expand_rounds, next, expand_256, ◌⊕◌}

-- The digits that two numbers share make up at most the second one.
shared-le : (fuel a b : ℕ) → digits (λ b. zero) min fuel a b ≤ b
shared-le zero a b = omega arith
shared-le (suc fuel) zero b = omega arith
shared-le (suc fuel) (suc a) b = omega (arith, shared-le fuel (suc a / 2) (b / 2))

pub bit_and-le : (a mask : ℕ) → bit_and a mask ≤ mask
bit_and-le a mask = omega (arith, bit_and-bitwise a mask, shared-le a a mask)

pub length-expand_256 : (a b : ℕ) → length (expand_256 a b) ≡ 32
unfolding expand_256
length-expand_256 a b =
    let x = (expand_rounds 4 a b).0 in
    let y = (expand_rounds 4 a b).1 in
    let first = next (x ⊕ y ⊕ 0xD6E8FEB86659FD93) in
    let d = (next first.0).1 in
    omega (
      arith,
      length-append (to_be_bytes 8 x)
          (to_be_bytes 8 y ++ (to_be_bytes 8 first.1 ++ to_be_bytes 8 d)),
      length-append (to_be_bytes 8 y) (to_be_bytes 8 first.1 ++ to_be_bytes 8 d),
      length-append (to_be_bytes 8 first.1) (to_be_bytes 8 d),
      length-to_be_bytes 8 x,
      length-to_be_bytes 8 y,
      length-to_be_bytes 8 first.1,
      length-to_be_bytes 8 d,
    )

-- ===== src/Difficulty/Target.antt =====
-- What the proof-of-work comparison decides (pow/difficulty.rs).
use Prim.Native.Nat.{compare}
use native.Mathlib.Nat.{le-div_iff_mul-le, div-le_self, le_trans}
use vision_core.Prelude.{
  ℕ, leb, sym, ◌∙◌, length-take, take-append, All-take, ◌^◌, ◌*◌, ◌≤◌, ◌<◌, ◌≡◌, ◌↔◌, length, take,
  replicate, arith, some, Option-cases, true, inl, inr, max, ap,
}
use vision_core.Prelude.Text.{Text, cmp}
use vision_core.Prelude.Bytes.{Bytes, u64_max, to_be_bytes, from_be_bytes}
use vision_core.Prelude.Bytes.Codec.{from_be-to_be, length-to_be_bytes}
use vision_core.Prelude.Bytes.Order.{AreBytes, cmp-from_be, to_be_bytes-AreBytes}
use vision_core.External.{External}
use vision_core.Difficulty.{target_hi, difficulty_to_target, is_le, upper_le, verify_pow_hash}

target_hi-lt : (difficulty : ℕ) → target_hi difficulty < 256 ^ 8
unfolding target_hi
target_hi-lt d = omega (arith, div-le_self u64_max (max d 1))

take-difficulty_to_target :
    (difficulty : ℕ)
    → take 8 (difficulty_to_target difficulty) ≡ to_be_bytes 8 (target_hi difficulty)
unfolding difficulty_to_target
take-difficulty_to_target d =
    take-append 8 (to_be_bytes 8 (target_hi d)) (replicate 24 255)
      (length-to_be_bytes 8 (target_hi d))

-- The number in the upper 64 bits of a hash.
abbrev pub upper64 : Bytes → ℕ
upper64 bytes = from_be_bytes (take 8 bytes)

mul_mono : (x a b : ℕ) → a ≤ b → x * a ≤ x * b
mul_mono x a b h = grind arith

upper_le-leb :
    (bytes : Bytes) (difficulty : ℕ)
    → length bytes ≡ 32
    → AreBytes bytes
    → upper_le bytes (difficulty_to_target difficulty) ≡ leb (upper64 bytes) (target_hi difficulty)
upper_le-leb bytes d l b = ap is_le (
    ap (cmp (take 8 bytes)) (take-difficulty_to_target d)
    ∙ cmp-from_be (take 8 bytes) (to_be_bytes 8 (target_hi d))
        (omega (arith, length-take 8 bytes, length-to_be_bytes 8 (target_hi d)))
        (All-take _ 8 bytes b) (to_be_bytes-AreBytes 8 (target_hi d))
    ∙ ap (compare (upper64 bytes)) (from_be-to_be 8 (target_hi d) (target_hi-lt d)))

leb-target_hi :
    (x difficulty : ℕ) → (leb x (target_hi difficulty) ≡ true) ↔ (x * max difficulty 1 ≤ u64_max)
unfolding target_hi
leb-target_hi x d =
    let quotient = le-div_iff_mul-le {k = max d 1} {x = x} {y = u64_max} (omega arith) in
    (λ h. quotient.0 (ground arith), λ h. ground (arith, quotient.1 h))

module _ ⦃ext : External⦄ where
  -- The hex crate decodes to bytes.
  abbrev pub HexDecodeBytes : Type 0
  HexDecodeBytes = (s : Text) (bytes : Bytes) → ext.hex_decode s ≡ some bytes → AreBytes bytes

  -- A hash passes at a difficulty exactly when it is the hex of 32 bytes whose upper 64 bits, times the
  -- difficulty (one at least), do not exceed 2^64 - 1; the lower 192 bits do not matter.
  pub verify_pow_hash_iff :
      (hash_hex : Text) (difficulty : ℕ)
      → HexDecodeBytes
      → (verify_pow_hash hash_hex difficulty ≡ true) ↔ (
          (bytes : Bytes) × (ext.hex_decode hash_hex ≡ some bytes)
          × (length bytes ≡ 32)
          × (upper64 bytes * max difficulty 1 ≤ u64_max))
  unfolding verify_pow_hash
  verify_pow_hash_iff hash_hex d are = (
    λ h. elim (Option-cases (ext.hex_decode hash_hex)) [
      | inl e ↦ absurd (ground arith)
      | inr (bytes, e) ↦
          let size : length bytes ≡ 32 = ground arith in
          let passes : upper_le bytes (difficulty_to_target d) ≡ true = ground arith in
          (
            bytes,
            e,
            size,
            (leb-target_hi (upper64 bytes) d).0
                (sym (upper_le-leb bytes d size (are hash_hex bytes e)) ∙ passes),
          )
    ],
    λ (bytes, e, size, fits).
        rw (e, verify_pow_hash)
          (ground (
            arith,
            size,
            upper_le-leb bytes d size (are hash_hex bytes e)
                ∙ (leb-target_hi (upper64 bytes) d).1 fits,
          )),
  )

  -- A hash that passes at one difficulty passes at every lower one.
  pub verify_pow_hash-antitone :
      (hash_hex : Text) (low high : ℕ)
      → HexDecodeBytes
      → low ≤ high
      → verify_pow_hash hash_hex high ≡ true
      → verify_pow_hash hash_hex low ≡ true
  verify_pow_hash-antitone hash_hex low high are h passes =
      let (bytes, e, size, fits) = (verify_pow_hash_iff hash_hex high are).0 passes in
      (verify_pow_hash_iff hash_hex low are).1 (bytes, e, size, weaker (upper64 bytes) fits)
    where
      weaker : (x : ℕ) → x * max high 1 ≤ u64_max → x * max low 1 ≤ u64_max
      weaker x fits = le_trans (mul_mono x (max low 1) (max high 1) (omega arith)) fits

-- ===== src/Visionx/Words.antt =====
-- pow/visionx.rs: words of 64 bits, the generator, and the folding of bytes into words.
pub mod Bounds
use Prim.Native.Nat.{bit_xor}
use vision_core.Prelude.{
  ℕ, zero, suc, ◌+◌, ◌-◌, ◌*◌, ◌/◌, ◌%◌, ◌^◌, List, [], ◌∷◌, ◌++◌, length, take, drop, replicate,
  foldl,
}
use vision_core.Prelude.Bytes.{Bytes, u64_mod, from_be_bytes, to_be_bytes}

infixl 60 ◌⊕◌
abbrev pub ◌⊕◌ : ℕ → ℕ → ℕ
a ⊕ b = bit_xor a b

unfoldable pub wrapping_add : ℕ → ℕ → ℕ
wrapping_add a b = (a + b) % u64_mod

unfoldable pub wrapping_mul : ℕ → ℕ → ℕ
wrapping_mul a b = a * b % u64_mod

-- Of a word, by less than 64 bits.
unfoldable pub rotate_left : ℕ → ℕ → ℕ
rotate_left a k = a * 2 ^ k % u64_mod + a / 2 ^ (64 - k)

unfoldable pub rotate_right : ℕ → ℕ → ℕ
rotate_right a k = a / 2 ^ k + a * 2 ^ (64 - k) % u64_mod

-- `SplitMix64::next`: the new state and the word.
unfoldable pub next : ℕ → ℕ × ℕ
unfolding wrapping_add wrapping_mul
next state =
    let moved = wrapping_add state 0x9E3779B97F4A7C15 in
    let y = wrapping_mul (moved ⊕ moved / 2 ^ 30) 0xBF58476D1CE4E5B9 in
    let z = wrapping_mul (y ⊕ y / 2 ^ 27) 0x94D049BB133111EB in (moved, z ⊕ z / 2 ^ 31)

-- `slice.chunks(size)`; the fuel is a bound on the length.
unfoldable pub chunks_loop : ℕ → ℕ → Bytes → List Bytes
chunks_loop zero size bytes = []
chunks_loop (suc fuel) size [] = []
chunks_loop (suc fuel) size (b ∷ bs) =
    take size (b ∷ bs) ∷ chunks_loop fuel size (drop size (b ∷ bs))

unfoldable pub chunks : ℕ → Bytes → List Bytes
unfolding chunks_loop
chunks size bytes = chunks_loop (length bytes) size bytes

-- A chunk at the front of an array of zeros.
unfoldable pub padded : ℕ → Bytes → Bytes
padded size chunk = chunk ++ replicate (size - length chunk) 0

-- One chunk in a seed, rotated by `r` before and by `q` after.
unfoldable pub fold_chunk : ℕ → ℕ → ℕ → Bytes → ℕ
unfolding rotate_left wrapping_mul padded from_be_bytes
fold_chunk r q seed chunk =
    let mixed = seed ⊕ rotate_left (from_be_bytes (padded 8 chunk)) r in
    rotate_left (wrapping_mul mixed 0x9E3779B97F4A7C15) q

unfoldable pub fold_seed : Bytes → ℕ → ℕ
unfolding fold_chunk chunks
fold_seed prev_hash32 epoch_id =
    foldl (fold_chunk 7 9) (epoch_id ⊕ 0xA24BAED4963EE407) (chunks 8 prev_hash32)

-- The rounds of `expand_256`.
unfoldable pub expand_rounds : ℕ → ℕ → ℕ → ℕ × ℕ
unfolding rotate_left wrapping_mul
expand_rounds zero a b = (a, b)
expand_rounds (suc rounds) a b =
    let a' = rotate_left a 13 ⊕ wrapping_mul b 0x9E3779B185EBCA87 in
    expand_rounds rounds a' (rotate_left b 17 ⊕ wrapping_mul a' 0xC2B2AE3D27D4EB4F)

unfoldable pub expand_256 : ℕ → ℕ → Bytes
unfolding expand_rounds next to_be_bytes
expand_256 a b =
    let (a', b') = expand_rounds 4 a b in
    let (moved, c) = next (a' ⊕ b' ⊕ 0xD6E8FEB86659FD93) in
    let d = (next moved).1 in
    to_be_bytes 8 a' ++ (to_be_bytes 8 b' ++ (to_be_bytes 8 c ++ to_be_bytes 8 d))

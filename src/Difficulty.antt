-- ===== src/Difficulty.antt =====
-- pow/difficulty.rs: targets, the proof-of-work comparison and the LWMA retarget, with the constants
-- of config/constants.rs. Sums are of 128 bits in the source; the widths are in `Bounds`.
pub mod Window
pub mod Bounds
pub mod Steady
pub mod Target
pub mod Wrap
use vision_core.Prelude.{
  ℕ, zero, suc, ◌+◌, ◌-◌, ◌*◌, ◌/◌, ◌%◌, ◌^◌, min, max, Bool, true, false, Option, none, some, List,
  [], ◌∷◌, ◌++◌, ltb, leb, ◌==◌, if◌then◌else◌, length, drop, take, replicate, last?, unwrap_or,
  arith,
}
use vision_core.Prelude.Text.{Text, cmp, text_eq}
use vision_core.Prelude.Bytes.{Bytes, u64_mod, u64_max, u128_mod, to_be_bytes}
use vision_core.Types.{Block}
use vision_core.External.{External}
use Prim.Native.Nat.{Ordering}
use Prim.Native.Nat.Ordering.{gt}
use mathlib.Core.Option

abbrev pub target_block_time : ℕ
target_block_time = 30

abbrev pub retarget_window : ℕ
retarget_window = 20

abbrev pub difficulty_floor : ℕ
difficulty_floor = 1

abbrev pub stall_multiplier : ℕ
stall_multiplier = 4

abbrev pub lwma_min_interval_secs : ℕ
lwma_min_interval_secs = target_block_time / 4

abbrev pub lwma_max_interval_secs : ℕ
lwma_max_interval_secs = target_block_time * 6

-- The upper 64 bits of the target.
unfoldable pub target_hi : ℕ → ℕ
target_hi difficulty = u64_max / max difficulty 1

unfoldable pub difficulty_to_target : ℕ → Bytes
unfolding target_hi to_be_bytes
difficulty_to_target difficulty = to_be_bytes 8 (target_hi difficulty) ++ replicate 24 255

-- `a[0..8] <= b[0..8]`, the order of byte slices
abbrev pub is_le : Ordering → Bool
is_le o = elim o [ gt ↦ false | _ ↦ true ]

abbrev pub upper_le : Bytes → Bytes → Bool
upper_le a b = is_le (cmp (take 8 a) (take 8 b))

module _ ⦃ext : External⦄ where
  unfoldable pub verify_pow_hash : Text → ℕ → Bool
  unfolding difficulty_to_target
  verify_pow_hash hash_hex difficulty = elim (ext.hex_decode hash_hex) [
    | none ↦ false
    | some hash_bytes ↦
        if length hash_bytes == 32
        then upper_le hash_bytes (difficulty_to_target difficulty)
        else false
  ]

-- The accumulators of the loop over the intervals of the window.
pub record Sums : Type 0 where
  pub weighted_sum : ℕ
  pub weight_total : ℕ
  pub sum_difficulty : ℕ

-- One interval, clamped against timestamp manipulation. `-` is the saturating subtraction.
unfoldable pub clamped : ℕ → ℕ → ℕ
clamped earlier later = min (max (later - earlier) lwma_min_interval_secs) lwma_max_interval_secs

-- The body of the loop, at the weight `i + 1`.
unfoldable pub accumulate : ℕ → Block → Block → Sums → Sums
unfolding clamped
accumulate weight older newer s = record {
  weighted_sum = s.weighted_sum + clamped older.header.timestamp newer.header.timestamp * weight;
  weight_total = s.weight_total + weight;
  sum_difficulty = s.sum_difficulty + newer.header.difficulty;
}

-- `for i in 0..count`: the pairs of neighbours, oldest first, with rising weights.
unfoldable pub sum_intervals : ℕ → Block → List Block → Sums → Sums
unfolding accumulate
sum_intervals weight older [] s = s
sum_intervals weight older (newer ∷ rest) s =
    sum_intervals (weight + 1) newer rest (accumulate weight older newer s)

-- `u128::saturating_mul`
abbrev pub saturating_mul : ℕ → ℕ → ℕ
saturating_mul a b = min (a * b) (u128_mod - 1)

-- The last `retarget_window + 1` blocks.
unfoldable pub window_of : List Block → List Block
window_of blocks =
    if ltb (retarget_window + 1) (length blocks)
    then drop (length blocks - (retarget_window + 1)) blocks
    else blocks

-- What the sums of a window of `count` intervals give, before the stall rule.
unfoldable pub retarget : Sums → ℕ → ℕ
retarget s count =
    saturating_mul (s.sum_difficulty / count) target_block_time
    / max (s.weighted_sum / s.weight_total) 1

unfoldable pub stall_downshift : ℕ → ℕ → ℕ → ℕ
stall_downshift now_secs last_ts new_diff =
    if ltb (target_block_time * stall_multiplier) (now_secs - last_ts)
    then saturating_mul new_diff 3 / 4
    else new_diff

-- The floor, and the cast to 64 bits, which drops the bits above.
unfoldable pub clamp_difficulty : ℕ → ℕ
clamp_difficulty new_diff = max new_diff difficulty_floor % u64_mod

abbrev pub no_sums : Sums
no_sums = record { weighted_sum = 0; weight_total = 0; sum_difficulty = 0 }

abbrev pub timestamp_of : Block → ℕ
timestamp_of b = b.header.timestamp

-- The window has a first block here: fewer than two blocks return the floor.
unfoldable pub retarget_window_of : List Block → ℕ → ℕ
retarget_window_of [] now_secs = difficulty_floor
retarget_window_of (first ∷ rest) now_secs =
    let s = sum_intervals 1 first rest no_sums in
    let last_ts = unwrap_or (Option.map timestamp_of (last? (first ∷ rest))) 0 in
    clamp_difficulty (stall_downshift now_secs last_ts (retarget s (length rest)))

unfoldable pub calculate_next_difficulty : List Block → ℕ → ℕ
calculate_next_difficulty blocks now_secs =
    if ltb (length blocks) 2
    then difficulty_floor
    else retarget_window_of (window_of blocks) now_secs

-- `expected_block_difficulty`
abbrev pub expected_block_difficulty : List Block → ℕ → ℕ
expected_block_difficulty blocks candidate_ts = calculate_next_difficulty blocks candidate_ts

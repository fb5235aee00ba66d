-- ===== src/Difficulty/Steady.antt =====
-- The fixed point of the retarget (pow/difficulty.rs): blocks on schedule keep the difficulty.
use native.Mathlib.Nat.{mul-div_cancel, mul-div_cancel_left}
use vision_core.Prelude.{
  ℕ, suc, ◌+◌, ◌*◌, ◌/◌, ◌≤◌, ◌<◌, ◌≡◌, [], ◌∷◌, List, length, arith, ltb-false, last?, unwrap_or,
  ◌∙◌,
}
use mathlib.Core.Option
use vision_core.Prelude.Bytes.{u64_mod}
use vision_core.Types.{Block}
use vision_core.Difficulty.{
  Sums, no_sums, clamped, accumulate, sum_intervals, window_of, retarget, stall_downshift,
  clamp_difficulty, retarget_window_of, calculate_next_difficulty, timestamp_of, target_block_time,
  stall_multiplier,
}
use vision_core.Difficulty.Window.{weight_total-grows}
use vision_core.Difficulty.Bounds.{retarget_plain}

-- Every block comes exactly one block time after the one before it, with the difficulty `d`.
abbrev pub OnSchedule : ℕ → Block → List Block → Type 0
OnSchedule d older [] = Unit
OnSchedule d older (newer ∷ rest) =
    (newer.header.timestamp ≡ older.header.timestamp + target_block_time)
    × (newer.header.difficulty ≡ d)
    × OnSchedule d newer rest

clamped_on_schedule : (a b : ℕ) → b ≡ a + target_block_time → clamped a b ≡ 30
unfolding clamped
clamped_on_schedule a b h = omega arith

fresh_retarget :
    (now_secs last_ts d : ℕ)
    → 1 ≤ d
    → d < u64_mod
    → now_secs ≤ last_ts + target_block_time * stall_multiplier
    → clamp_difficulty (stall_downshift now_secs last_ts d) ≡ d
unfolding clamp_difficulty stall_downshift
fresh_retarget now_secs last_ts d l u h = ground arith

sums-OnSchedule :
    (d weight : ℕ) (older : Block) (rest : List Block) (s : Sums)
    → OnSchedule d older rest
    → s.weighted_sum ≡ 30 * s.weight_total
    → ((sum_intervals weight older rest s).weighted_sum
        ≡ 30 * (sum_intervals weight older rest s).weight_total)
      × ((sum_intervals weight older rest s).sum_difficulty ≡ s.sum_difficulty + length rest * d)
unfolding sum_intervals
sums-OnSchedule d weight older [] s o e = omega arith
sums-OnSchedule d weight older (newer ∷ rest) s o e =
    let ih =
      sums-OnSchedule d (weight + 1) newer rest (accumulate weight older newer s) o.2
        (unfold accumulate in rw (clamped_on_schedule _ _ o.0) (omega arith)) in
    (ih.0, unfold accumulate in omega (arith, ih.1, o.1))

-- The tip of a window.
abbrev pub last_timestamp : Block → List Block → ℕ
last_timestamp first rest = unwrap_or (Option.map timestamp_of (last? (first ∷ rest))) 0

-- A chain of two to twenty-one blocks that came exactly on schedule at one difficulty, and whose tip is
-- not older than the stall threshold, keeps that difficulty.
pub calculate_next_difficulty-OnSchedule :
    (d now_secs : ℕ) (first : Block) (rest : List Block)
    → 1 ≤ length rest
    → length rest ≤ 20
    → OnSchedule d first rest
    → 1 ≤ d
    → d < u64_mod
    → now_secs ≤ last_timestamp first rest + target_block_time * stall_multiplier
    → calculate_next_difficulty (first ∷ rest) now_secs ≡ d
unfolding calculate_next_difficulty window_of retarget_window_of
calculate_next_difficulty-OnSchedule d now_secs first rest n m o lo hi fresh =
    rw
      (
        ltb-false (suc (length rest)) 2 (omega arith),
        ltb-false 21 (suc (length rest)) (omega arith),
      )
      (rw plain (fresh_retarget now_secs (last_timestamp first rest) d lo hi fresh))
  where
    s : Sums
    s = sum_intervals 1 first rest no_sums

    same : (s.weighted_sum ≡ 30 * s.weight_total) × (s.sum_difficulty ≡ length rest * d)
    same =
        let h = sums-OnSchedule d 1 first rest no_sums o (omega arith) in (h.0, omega (arith, h.1))

    weights : 0 < s.weight_total
    weights = omega (arith, weight_total-grows 1 first rest no_sums (omega arith))

    mean : s.sum_difficulty / length rest ≡ d
    mean = rw same.1 (mul-div_cancel_left d n)

    interval : s.weighted_sum / s.weight_total ≡ 30
    interval = rw same.0 (mul-div_cancel 30 weights)

    plain : retarget s (length rest) ≡ d
    plain =
        retarget_plain s (length rest) (rw mean hi) (rw interval (omega arith))
        ∙ rw (mean, interval) (mul-div_cancel d (omega arith))

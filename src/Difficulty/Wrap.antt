-- ===== src/Difficulty/Wrap.antt =====
-- The cast at the end of pow/difficulty.rs: what it does to a retarget of more than 64 bits.
use vision_core.Prelude.{ℕ, ◌+◌, ◌*◌, ◌/◌, ◌≤◌, ◌<◌, ◌≡◌, [], ◌∷◌, arith}
use vision_core.Prelude.Bytes.{u64_mod}
use vision_core.Types.{Block}
use vision_core.Difficulty.{
  clamped, accumulate, sum_intervals, no_sums, window_of, retarget, stall_downshift,
  clamp_difficulty, retarget_window_of, calculate_next_difficulty, lwma_min_interval_secs,
  target_block_time, stall_multiplier,
}

fast_interval : (a b : ℕ) → b ≤ a + lwma_min_interval_secs → clamped a b ≡ 7
unfolding clamped
fast_interval a b h = omega arith

fast_retarget :
    (d : ℕ)
    → d < u64_mod
    → retarget (record { weighted_sum = 7; weight_total = 1; sum_difficulty = d }) 1 ≡ d * 30 / 7
unfolding retarget
fast_retarget d h = omega arith

wrapped :
    (now_secs last_ts x : ℕ)
    → u64_mod ≤ x
    → x < 2 * u64_mod
    → now_secs ≤ last_ts + target_block_time * stall_multiplier
    → clamp_difficulty (stall_downshift now_secs last_ts x) + u64_mod ≡ x
unfolding clamp_difficulty stall_downshift
wrapped now_secs last_ts x l u h = ground arith

fast_sums :
    (a b : Block)
    → b.header.timestamp ≤ a.header.timestamp + lwma_min_interval_secs
    → sum_intervals 1 a (b ∷ []) no_sums
      ≡ record { weighted_sum = 7; weight_total = 1; sum_difficulty = b.header.difficulty }
unfolding sum_intervals accumulate
fast_sums a b h = ground (arith, fast_interval a.header.timestamp b.header.timestamp)

-- Where the retarget exceeds 64 bits the cast drops its top bit: two blocks that came as fast as the clamp
-- counts, whose difficulty `d` is such that `d * 30 / 7` lies in the `d` numbers from 2^64 on, are followed
-- by a difficulty below `d`, although blocks came too fast.
pub calculate_next_difficulty_wraps :
    (a b : Block) (now_secs : ℕ)
    → b.header.timestamp ≤ a.header.timestamp + lwma_min_interval_secs
    → now_secs ≤ b.header.timestamp + target_block_time * stall_multiplier
    → b.header.difficulty < u64_mod
    → u64_mod ≤ b.header.difficulty * 30 / 7
    → b.header.difficulty * 30 / 7 < u64_mod + b.header.difficulty
    → calculate_next_difficulty (a ∷ b ∷ []) now_secs < b.header.difficulty
unfolding calculate_next_difficulty window_of retarget_window_of
calculate_next_difficulty_wraps a b now_secs fast fresh fits over near = rw (fast_sums a b fast) (
    rw (fast_retarget b.header.difficulty fits) (
      omega (
        arith,
        wrapped now_secs b.header.timestamp (b.header.difficulty * 30 / 7) over (omega arith) fresh,
      )))

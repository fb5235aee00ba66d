-- ===== src/Tests/Work.antt =====
-- Runs of the retarget and of the proof-of-work comparison.
use vision_core.Prelude.{
  ℕ, ◌*◌, ◌/◌, ◌≤◌, ◌<◌, ◌≡◌, ◌↔◌, refl, max, true, some, [], ◌∷◌, length, arith,
}
use vision_core.Prelude.Text.{cmp}
use vision_core.Prelude.Bytes.{Bytes, u64_max}
use vision_core.Types.{Block}
use vision_core.Difficulty.{verify_pow_hash, calculate_next_difficulty, difficulty_floor}
use vision_core.Difficulty.Bounds.{calculate_next_difficulty_bounds}
use vision_core.Difficulty.Steady.{calculate_next_difficulty-OnSchedule}
use vision_core.Difficulty.Target.{verify_pow_hash_iff, upper64}
use vision_core.Difficulty.Wrap.{calculate_next_difficulty_wraps}
use vision_core.Block.{null_hash}
use vision_core.Tests.Host.{host, host-HexDecodeBytes}
use vision_core.Tests.Samples.{block_of}

abbrev at : ℕ → ℕ → Block
at timestamp difficulty =
    let b = block_of 1 timestamp null_hash null_hash in
    record b { header = record b.header { difficulty = difficulty } }

calculate_next_difficulty_bounds_example :
    (difficulty_floor ≤ calculate_next_difficulty (at 0 50 ∷ at 30 70 ∷ []) 60)
    × (50 / 6 * 3 / 4 ≤ calculate_next_difficulty (at 0 50 ∷ at 30 70 ∷ []) 60)
    × (calculate_next_difficulty (at 0 50 ∷ at 30 70 ∷ []) 60 ≤ max (70 * 30 / 7) difficulty_floor)
calculate_next_difficulty_bounds_example =
    calculate_next_difficulty_bounds 50 70 60 (at 0 50 ∷ at 30 70 ∷ []) (omega arith)
      ((omega arith, omega arith), ((omega arith, omega arith), tt)) (omega arith)

calculate_next_difficulty-OnSchedule_example :
    calculate_next_difficulty (at 0 50 ∷ at 30 50 ∷ []) 60 ≡ 50
calculate_next_difficulty-OnSchedule_example =
    calculate_next_difficulty-OnSchedule 50 60 (at 0 50) (at 30 50 ∷ []) (omega arith) (omega arith)
      (refl, refl, tt) (omega arith) (omega arith) (omega arith)

null_hash_passes : verify_pow_hash null_hash 1000 ≡ true
unfolding verify_pow_hash host cmp
null_hash_passes = refl

verify_pow_hash_iff_example : (verify_pow_hash null_hash 1000 ≡ true) ↔ (
    (bytes : Bytes) × (host.hex_decode null_hash ≡ some bytes)
    × (length bytes ≡ 32)
    × (upper64 bytes * max 1000 1 ≤ u64_max))
verify_pow_hash_iff_example = verify_pow_hash_iff null_hash 1000 host-HexDecodeBytes

-- 5 * 10^18 is so large that the next difficulty passes 2^64 and comes out at about 3 * 10^18.
calculate_next_difficulty_wraps_example :
    calculate_next_difficulty (at 0 5000000000000000000 ∷ at 5 5000000000000000000 ∷ []) 10
    < 5000000000000000000
calculate_next_difficulty_wraps_example =
    calculate_next_difficulty_wraps (at 0 5000000000000000000) (at 5 5000000000000000000) 10
      (omega arith) (omega arith) (omega arith) (omega arith) (omega arith)

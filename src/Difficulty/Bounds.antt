-- ===== src/Difficulty/Bounds.antt =====
-- The range of the retarget (pow/difficulty.rs).
use native.Mathlib.Nat.{le-div_iff_mul-le, div-le_of_le-mul, div-mul-le_self, le_trans}
use vision_core.Prelude.{
  All-drop, ltb-false, ℕ, ◌-◌, ◌*◌, ◌/◌, ◌≤◌, ◌<◌, ◌≡◌, [], ◌∷◌, List, length, length-drop, arith,
  Bool-cases, inl, inr, ltb, max, min,
}
use vision_core.Prelude.Bytes.{u64_mod, u128_mod}
use vision_core.Types.{Block}
use vision_core.Difficulty.{
  Sums, sum_intervals, window_of, lwma_min_interval_secs, retarget, stall_downshift,
  clamp_difficulty, retarget_window_of, calculate_next_difficulty, lwma_max_interval_secs, no_sums,
  target_block_time, difficulty_floor,
}
use vision_core.Difficulty.Window.{
  Within, IsWeighted, no_sums-IsWeighted, sum_intervals-IsWeighted, weight_total-grows,
  sum_difficulty_bounds,
}

-- The weighted mean of the intervals lies between the two clamps.
lwma_bounds :
    (s : Sums)
    → IsWeighted s
    → 0 < s.weight_total
    → (lwma_min_interval_secs ≤ s.weighted_sum / s.weight_total)
      × (s.weighted_sum / s.weight_total ≤ lwma_max_interval_secs)
lwma_bounds s h w = (
  (le-div_iff_mul-le w).1 h.from_below,
  div-le_of_le-mul s.weight_total (omega (arith, h.from_above)),
)

mean_bounds :
    (total count lo hi : ℕ)
    → 0 < count
    → count * lo ≤ total
    → total ≤ count * hi
    → (lo ≤ total / count) × (total / count ≤ hi)
mean_bounds total count lo hi c h k =
    ((le-div_iff_mul-le c).1 (omega arith), div-le_of_le-mul count k)

-- A quotient falls as its divisor rises.
pub div-antitone : (x a b : ℕ) → 0 < a → a ≤ b → x / b ≤ x / a
div-antitone x a b h k = (le-div_iff_mul-le h).1 (le_trans (grind arith) (div-mul-le_self x b))

-- Within these ranges nothing saturates and no divisor is zero.
pub retarget_plain :
    (s : Sums) (count : ℕ)
    → s.sum_difficulty / count < u64_mod
    → 0 < s.weighted_sum / s.weight_total
    → retarget s count
      ≡ s.sum_difficulty / count * target_block_time / (s.weighted_sum / s.weight_total)
unfolding retarget
retarget_plain s count h k =
    let base : ℕ = s.sum_difficulty / count in
    let lwma : ℕ = s.weighted_sum / s.weight_total in
    let e : min (base * 30) (u128_mod - 1) ≡ base * 30 = omega arith in
    let f : max lwma 1 ≡ lwma = omega arith in rw (e, f)

retarget_bounds :
    (s : Sums) (count lo hi : ℕ)
    → 0 < count
    → IsWeighted s
    → 0 < s.weight_total
    → count * lo ≤ s.sum_difficulty
    → s.sum_difficulty ≤ count * hi
    → hi < u64_mod
    → (lo / 6 ≤ retarget s count) × (retarget s count ≤ hi * 30 / 7)
retarget_bounds s count lo hi c h w l u f =
    let m = mean_bounds s.sum_difficulty count lo hi c l u in
    let v = lwma_bounds s h w in
    let base : ℕ = s.sum_difficulty / count in
    let lwma : ℕ = s.weighted_sum / s.weight_total in
    let low = div-antitone (base * 30) lwma 180 (omega arith) v.1 in
    let high = div-antitone (base * 30) 7 lwma (omega arith) v.0 in
    rw (retarget_plain s count (omega (arith, m.1)) (omega (arith, v.0)))
      (omega (arith, m.0, m.1, low), omega (arith, m.1, high))

clamp-stall_bounds :
    (now_secs last_ts x lo hi : ℕ)
    → lo ≤ x
    → x ≤ hi
    → hi < u64_mod
    → (difficulty_floor ≤ clamp_difficulty (stall_downshift now_secs last_ts x))
      × (lo * 3 / 4 ≤ clamp_difficulty (stall_downshift now_secs last_ts x))
      × (clamp_difficulty (stall_downshift now_secs last_ts x) ≤ max hi difficulty_floor)
unfolding clamp_difficulty stall_downshift
clamp-stall_bounds now_secs last_ts x lo hi l u f = ground arith

-- The range of the next difficulty: with every difficulty of the window between `lo` and `hi`.
retarget_window_of_bounds :
    (lo hi now_secs : ℕ) (first second : Block) (rest : List Block)
    → Within lo hi (second ∷ rest)
    → hi * 30 / 7 < u64_mod
    → (difficulty_floor ≤ retarget_window_of (first ∷ second ∷ rest) now_secs)
      × (lo / 6 * 3 / 4 ≤ retarget_window_of (first ∷ second ∷ rest) now_secs)
      × (retarget_window_of (first ∷ second ∷ rest) now_secs ≤ max (hi * 30 / 7) difficulty_floor)
unfolding retarget_window_of
retarget_window_of_bounds lo hi now_secs first second rest w f =
    let s = sum_intervals 1 first (second ∷ rest) no_sums in
    let d = sum_difficulty_bounds lo hi 1 first (second ∷ rest) no_sums w in
    let t = weight_total-grows 1 first (second ∷ rest) no_sums (omega arith) in
    let r =
      retarget_bounds s (length (second ∷ rest)) lo hi (omega arith)
        (sum_intervals-IsWeighted 1 first (second ∷ rest) no_sums no_sums-IsWeighted) (omega arith)
        (omega arith) (omega arith) (omega arith) in
    clamp-stall_bounds now_secs _ (retarget s (length (second ∷ rest))) (lo / 6) (hi * 30 / 7) r.0
      r.1 f

window_of-Within :
    (lo hi : ℕ) (blocks : List Block) → Within lo hi blocks → Within lo hi (window_of blocks)
unfolding window_of
window_of-Within lo hi blocks w = elim (Bool-cases (ltb 21 (length blocks))) [
  | inl e ↦ rw e (All-drop _ (length blocks - 21) blocks w)
  | inr e ↦ rw e w
]

length-window_of : (blocks : List Block) → 2 ≤ length blocks → 2 ≤ length (window_of blocks)
unfolding window_of
length-window_of blocks h = ground (arith, length-drop (length blocks - 21) blocks)

any_window_bounds :
    (lo hi now_secs : ℕ) (window : List Block)
    → 2 ≤ length window
    → Within lo hi window
    → hi * 30 / 7 < u64_mod
    → (difficulty_floor ≤ retarget_window_of window now_secs)
      × (lo / 6 * 3 / 4 ≤ retarget_window_of window now_secs)
      × (retarget_window_of window now_secs ≤ max (hi * 30 / 7) difficulty_floor)
any_window_bounds lo hi now_secs [] n w f = absurd (omega arith)
any_window_bounds lo hi now_secs (x ∷ []) n w f = absurd (omega arith)
any_window_bounds lo hi now_secs (x ∷ y ∷ rest) n w f =
    retarget_window_of_bounds lo hi now_secs x y rest w.1 f

-- The next difficulty, for a chain of at least two blocks whose difficulties lie between `lo` and `hi`,
-- where `hi * 30 / 7` fits 64 bits: it is at least the floor, falls by the clamps and the stall rule to
-- no less than three quarters of `lo / 6`, and rises to no more than `hi * 30 / 7`.
pub calculate_next_difficulty_bounds :
    (lo hi now_secs : ℕ) (blocks : List Block)
    → 2 ≤ length blocks
    → Within lo hi blocks
    → hi * 30 / 7 < u64_mod
    → (difficulty_floor ≤ calculate_next_difficulty blocks now_secs)
      × (lo / 6 * 3 / 4 ≤ calculate_next_difficulty blocks now_secs)
      × (calculate_next_difficulty blocks now_secs ≤ max (hi * 30 / 7) difficulty_floor)
unfolding calculate_next_difficulty
calculate_next_difficulty_bounds lo hi now_secs blocks n w f = rw (ltb-false (length blocks) 2 n) (
    any_window_bounds lo hi now_secs (window_of blocks) (length-window_of blocks n)
      (window_of-Within lo hi blocks w) f)

-- ===== src/Difficulty/Window.antt =====
-- The sums over the window of pow/difficulty.rs.
use vision_core.Prelude.{ℕ, ◌+◌, ◌*◌, ◌≤◌, ◌<◌, [], ◌∷◌, List, All, length, arith}
use vision_core.Types.{Block}
use vision_core.Difficulty.{
  Sums, clamped, accumulate, sum_intervals, lwma_min_interval_secs, lwma_max_interval_secs, no_sums,
}

-- The difficulties of the blocks lie in a range.
abbrev pub Within : ℕ → ℕ → List Block → Type 0
Within lo hi = All (λ b. (lo ≤ b.header.difficulty) × (b.header.difficulty ≤ hi))

clamped_bounds :
    (earlier later : ℕ)
    → (lwma_min_interval_secs ≤ clamped earlier later)
      × (clamped earlier later ≤ lwma_max_interval_secs)
unfolding clamped
clamped_bounds earlier later = omega arith

-- Every weighted interval lies between the two clamps.
pub record IsWeighted (s : Sums) : Type 0 where
  pub from_below : lwma_min_interval_secs * s.weight_total ≤ s.weighted_sum
  pub from_above : s.weighted_sum ≤ lwma_max_interval_secs * s.weight_total

pub no_sums-IsWeighted : IsWeighted no_sums
no_sums-IsWeighted = omega arith

accumulate-IsWeighted :
    (weight : ℕ) (older newer : Block) (s : Sums)
    → IsWeighted s
    → IsWeighted (accumulate weight older newer s)
unfolding accumulate
accumulate-IsWeighted weight older newer s h =
    let b = clamped_bounds older.header.timestamp newer.header.timestamp in
    record {
      from_below = grind (arith, b.0, h.from_below);
      from_above = grind (arith, b.1, h.from_above);
    }

pub sum_intervals-IsWeighted :
    (weight : ℕ) (older : Block) (rest : List Block) (s : Sums)
    → IsWeighted s
    → IsWeighted (sum_intervals weight older rest s)
unfolding sum_intervals
sum_intervals-IsWeighted weight older [] s h = h
sum_intervals-IsWeighted weight older (newer ∷ rest) s h =
    sum_intervals-IsWeighted (weight + 1) newer rest (accumulate weight older newer s)
      (accumulate-IsWeighted weight older newer s h)

pub weight_total-grows :
    (weight : ℕ) (older : Block) (rest : List Block) (s : Sums)
    → 0 < weight
    → s.weight_total + length rest ≤ (sum_intervals weight older rest s).weight_total
unfolding sum_intervals accumulate
weight_total-grows weight older [] s h = omega arith
weight_total-grows weight older (newer ∷ rest) s h = omega (
  arith,
  weight_total-grows (weight + 1) newer rest (accumulate weight older newer s) (omega arith),
)

pub sum_difficulty_bounds :
    (lo hi weight : ℕ) (older : Block) (rest : List Block) (s : Sums)
    → Within lo hi rest
    → (s.sum_difficulty + length rest * lo ≤ (sum_intervals weight older rest s).sum_difficulty)
      × ((sum_intervals weight older rest s).sum_difficulty ≤ s.sum_difficulty + length rest * hi)
unfolding sum_intervals accumulate
sum_difficulty_bounds lo hi weight older [] s h = omega arith
sum_difficulty_bounds lo hi weight older (newer ∷ rest) s h = omega (
  arith,
  h.0,
  sum_difficulty_bounds lo hi (weight + 1) newer rest (accumulate weight older newer s) h.1,
)

-- ===== src/Visionx/Cache/Fuel.antt =====
-- The eviction loop ends: the fuel given is enough, so that more of it changes nothing.
use vision_core.Prelude.{
  ℕ, zero, suc, ◌+◌, ◌-◌, ◌*◌, ◌≤◌, ◌≡◌, refl, List, [], ◌∷◌, ◌++◌, length, length-append, arith,
}
use vision_core.Visionx.Dataset.{Memory}
use vision_core.Visionx.Cache.{DatasetCacheKey, DatasetCache, remove_entry, evict_loop, evict_fuel}

-- The rounds that are left, for a queue of a length after some rotations: a round rotates, or it
-- shortens the queue.
abbrev pub rounds_left : ℕ → ℕ → ℕ
rounds_left queued rotations = queued * (queued + 2) + (queued + 1 - rotations)

shorter : (n r f : ℕ) → rounds_left (suc n) r ≤ suc f → rounds_left n r ≤ f
shorter n r f h = grind arith

restarted : (n r f : ℕ) → rounds_left (suc n) r ≤ suc f → rounds_left n 0 ≤ f
restarted n r f h = grind arith

turned : (n r f : ℕ) → r ≤ suc n → rounds_left (suc n) r ≤ suc f → rounds_left (suc n) (r + 1) ≤ f
turned n r f h k = grind arith

-- Two amounts of fuel that cover the rounds left give one result.
evict_loop-fuel :
    (f g : ℕ) (key : DatasetCacheKey) (capacity rotations : ℕ)
    (entries : List (DatasetCacheKey × Memory)) (order evicted : List DatasetCacheKey)
    → rounds_left (length order) rotations ≤ f
    → rounds_left (length order) rotations ≤ g
    → evict_loop f key capacity rotations (record { entries = entries; order = order }) evicted
      ≡ evict_loop g key capacity rotations (record { entries = entries; order = order }) evicted
unfolding evict_loop
evict_loop-fuel zero zero key capacity r entries [] evicted hf hg = refl
evict_loop-fuel zero (suc g) key capacity r entries [] evicted hf hg = ground arith
evict_loop-fuel (suc f) zero key capacity r entries [] evicted hf hg = ground arith
evict_loop-fuel (suc f) (suc g) key capacity r entries [] evicted hf hg = ground arith
evict_loop-fuel zero g key capacity r entries (c ∷ order) evicted hf hg = absurd (grind arith)
evict_loop-fuel (suc f) zero key capacity r entries (c ∷ order) evicted hf hg = absurd (grind arith)
evict_loop-fuel (suc f) (suc g) key capacity r entries (c ∷ order) evicted hf hg =
    let absent = evict_loop-fuel f g key capacity r entries order evicted in
    let rotated = evict_loop-fuel f g key capacity (r + 1) entries (order ++ c ∷ []) evicted in
    let dropped =
      evict_loop-fuel f g key capacity 0 (remove_entry c entries) order (evicted ++ c ∷ []) in
    ground (
      arith,
      absent,
      rotated,
      dropped,
      length-append order (c ∷ []),
      shorter (length order) r f,
      shorter (length order) r g,
      restarted (length order) r f,
      restarted (length order) r g,
      turned (length order) r f,
      turned (length order) r g,
    )

-- More fuel than is given changes nothing: the loop that evicts ends by its own conditions, within
-- the square of two more than the length of the queue.
pub evict_over_capacity_limit_fuel :
    (fuel : ℕ) (cache : DatasetCache) (key : DatasetCacheKey) (capacity : ℕ)
    → evict_fuel (length cache.order) ≤ fuel
    → evict_loop fuel key capacity 0 cache []
      ≡ evict_loop (evict_fuel (length cache.order)) key capacity 0 cache []
evict_over_capacity_limit_fuel fuel cache key capacity h =
    let enough : rounds_left (length cache.order) 0 ≤ evict_fuel (length cache.order) =
      grind arith in
    evict_loop-fuel fuel (evict_fuel (length cache.order)) key capacity 0 cache.entries cache.order
      [] (omega (arith, h, enough)) enough

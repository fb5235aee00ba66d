-- ===== src/Visionx/Cache/Faithful.antt =====
-- A cache is faithful where each entry is the dataset of its key, and every operation keeps it so.
use vision_core.Prelude.{
  ℕ, zero, suc, ◌+◌, ◌≡◌, refl, subst, true, not, some, List, [], ◌∷◌, ◌++◌, length, keep_if, All,
  All-keep_if, Bool-cases, Option-cases, inl, inr, arith,
}
use vision_core.Prelude.Text.{text_eq_iff}
use vision_core.Visionx.Dataset.{Memory, build}
use vision_core.Visionx.Cache.{
  DatasetCacheKey, same_key, DatasetCache, find_entry, get, other_entry, remove_entry,
  retain_order_for_entries, evict_loop, evict_fuel, evict_over_capacity_limit, insert_if_absent,
  dataset_cache_capacity,
}

pub same_key-eq : (k l : DatasetCacheKey) → same_key k l ≡ true → k ≡ l
unfolding same_key
same_key-eq k l h = ground (arith, text_eq_iff k.prev_hash32 l.prev_hash32)

abbrev pub dataset_of : DatasetCacheKey → Memory
dataset_of key = build key.params key.prev_hash32 key.epoch

abbrev pub AreBuilt : List (DatasetCacheKey × Memory) → Type 0
AreBuilt = All (λ e. e.1 ≡ dataset_of e.0)

abbrev pub IsFaithful : DatasetCache → Type 0
IsFaithful cache = AreBuilt cache.entries

pub find_entry-built :
    (key : DatasetCacheKey) (entries : List (DatasetCacheKey × Memory)) (m : Memory)
    → AreBuilt entries
    → find_entry key entries ≡ some m
    → m ≡ dataset_of key
unfolding find_entry
find_entry-built key [] m p e = cc
find_entry-built key ((k, n) ∷ rest) m p e = elim (Bool-cases (same_key k key)) [
  | inl same ↦ subst (λ l. m ≡ dataset_of l) (same_key-eq k key same) (cc (p.0, e, same))
  | inr other ↦ find_entry-built key rest m p.1 (ground (arith, e, other))
]

evict_loop-IsFaithful :
    (fuel : ℕ) (key : DatasetCacheKey) (capacity rotations : ℕ)
    (entries : List (DatasetCacheKey × Memory)) (order evicted : List DatasetCacheKey)
    → AreBuilt entries
    → IsFaithful
        (evict_loop fuel key capacity rotations
          (record { entries = entries; order = order })
          evicted).0
unfolding evict_loop remove_entry
evict_loop-IsFaithful zero key capacity rotations entries order evicted p = p
evict_loop-IsFaithful (suc fuel) key capacity rotations entries [] evicted p = ground (arith, p)
evict_loop-IsFaithful (suc fuel) key capacity rotations entries (c ∷ order) evicted p =
    let absent = evict_loop-IsFaithful fuel key capacity rotations entries order evicted p in
    let rotated =
      evict_loop-IsFaithful fuel key capacity (rotations + 1) entries (order ++ c ∷ []) evicted p in
    let dropped =
      evict_loop-IsFaithful fuel key capacity 0 (remove_entry c entries) order (evicted ++ c ∷ [])
        (All-keep_if (λ e. e.1 ≡ dataset_of e.0) (other_entry c) entries p) in
    ground (arith, absent, rotated, dropped)

pub insert_if_absent-IsFaithful :
    (cache : DatasetCache) (key : DatasetCacheKey)
    → IsFaithful cache
    → IsFaithful (insert_if_absent cache key (dataset_of key)).0
      × ((insert_if_absent cache key (dataset_of key)).1.dataset ≡ dataset_of key)
unfolding insert_if_absent get evict_over_capacity_limit retain_order_for_entries remove_entry
insert_if_absent-IsFaithful cache key p = elim (Option-cases (find_entry key cache.entries)) [
  | inr (existing, e) ↦
      rw (insert_if_absent, e) (p, find_entry-built key cache.entries existing p e)
  | inl absent ↦
      let order = keep_if (λ queued. not (same_key queued key)) cache.order ++ key ∷ [] in
      let added =
        evict_loop-IsFaithful (evict_fuel (length order)) key dataset_cache_capacity 0
          ((key, dataset_of key) ∷ remove_entry key cache.entries) order []
          (refl, All-keep_if (λ e. e.1 ≡ dataset_of e.0) (other_entry key) cache.entries p) in
      rw (insert_if_absent, absent) (added, refl)
]

-- ===== src/Visionx/Cache.antt =====
-- pow/visionx.rs: `DatasetCache`, the datasets of the last epochs, oldest first in a queue.
pub mod Faithful
pub mod Fuel
use vision_core.Prelude.{
  ℕ, zero, suc, ◌+◌, ◌*◌, Bool, true, false, not, ◌&&◌, ◌||◌, Option, none, some, List, [], ◌∷◌,
  ◌++◌, length, keep_if, any, ltb, leb, ◌==◌, if◌then◌else◌, is_some,
}
use vision_core.Prelude.Text.{text_eq}
use vision_core.Prelude.Bytes.{Bytes}
use vision_core.Visionx.Params.{VisionXParams}
use vision_core.Visionx.Dataset.{Memory}

pub record DatasetCacheKey : Type 0 where
  pub params : VisionXParams
  pub epoch : ℕ
  pub prev_hash32 : Bytes

abbrev pub dataset_cache_capacity : ℕ
dataset_cache_capacity = 3

-- The derived equality of the parameters.
abbrev pub same_params : VisionXParams → VisionXParams → Bool
same_params p q =
    p.dataset_mb == q.dataset_mb
    && p.scratch_mb == q.scratch_mb
    && p.mix_iters == q.mix_iters
    && p.reads_per_iter == q.reads_per_iter
    && p.write_every == q.write_every
    && p.epoch_blocks == q.epoch_blocks

unfoldable pub same_key : DatasetCacheKey → DatasetCacheKey → Bool
unfolding text_eq
same_key k l =
    same_params k.params l.params && k.epoch == l.epoch && text_eq k.prev_hash32 l.prev_hash32

-- The `HashMap` as a list with one entry for a key, and the queue of keys.
pub record DatasetCache : Type 0 where
  pub entries : List (DatasetCacheKey × Memory)
  pub order : List DatasetCacheKey

abbrev pub empty : DatasetCache
empty = record { entries = []; order = [] }

unfoldable pub find_entry : DatasetCacheKey → List (DatasetCacheKey × Memory) → Option Memory
unfolding same_key
find_entry key [] = none
find_entry key ((k, m) ∷ rest) =
    let later = find_entry key rest in if same_key k key then some m else later

unfoldable pub get : DatasetCache → DatasetCacheKey → Option Memory
unfolding find_entry
get cache key = find_entry key cache.entries

abbrev pub other_entry : DatasetCacheKey → DatasetCacheKey × Memory → Bool
other_entry key e = not (same_key e.0 key)

unfoldable pub remove_entry :
    DatasetCacheKey → List (DatasetCacheKey × Memory) → List (DatasetCacheKey × Memory)
unfolding same_key
remove_entry key entries = keep_if (other_entry key) entries

abbrev pub holds : List (DatasetCacheKey × Memory) → DatasetCacheKey → Bool
holds entries key = is_some (find_entry key entries)

-- The keys of the queue that have an entry, each once.
unfoldable pub retain_keys :
    List (DatasetCacheKey × Memory)
    → List DatasetCacheKey
    → List DatasetCacheKey
    → List DatasetCacheKey
unfolding find_entry same_key
retain_keys entries seen [] = []
retain_keys entries seen (k ∷ ks) =
    let dropped = retain_keys entries seen ks in
    let kept = retain_keys entries (k ∷ seen) ks in
    if not (holds entries k) || any (same_key k) seen then dropped else k ∷ kept

unfoldable pub retain_order_for_entries : DatasetCache → DatasetCache
unfolding retain_keys
retain_order_for_entries cache = record cache { order = retain_keys cache.entries [] cache.order }

-- The loop of `evict_over_capacity_limit`, on fuel: the cache, and the keys evicted so far.
unfoldable pub evict_loop :
    ℕ
    → DatasetCacheKey
    → ℕ
    → ℕ
    → DatasetCache
    → List DatasetCacheKey
    → DatasetCache × List DatasetCacheKey
unfolding find_entry same_key remove_entry
evict_loop zero active_key capacity rotations cache evicted = (cache, evicted)
evict_loop (suc fuel) active_key capacity rotations cache evicted =
    elim (ltb capacity (length cache.entries) && leb rotations (length cache.order)) [
      | false ↦ (cache, evicted)
      | true ↦ elim cache.order [
        | [] ↦ (cache, evicted)
        | candidate ∷ order ↦ elim (holds cache.entries candidate) [
          | false ↦
              evict_loop fuel active_key capacity rotations (record cache { order = order }) evicted
          | true ↦ elim (same_key candidate active_key) [
            | true ↦
                evict_loop fuel active_key capacity (rotations + 1)
                  (record cache { order = order ++ candidate ∷ [] }) evicted
            | false ↦
                evict_loop fuel active_key capacity 0
                  (record { entries = remove_entry candidate cache.entries; order = order })
                  (evicted ++ candidate ∷ [])
          ]
        ]
      ]
    ]

-- The rounds that a queue of a length can take; `Fuel` proves the fuel enough.
abbrev pub evict_fuel : ℕ → ℕ
evict_fuel queued = (queued + 2) * (queued + 2)

unfoldable pub evict_over_capacity_limit :
    DatasetCache → DatasetCacheKey → ℕ → DatasetCache × List DatasetCacheKey
unfolding evict_loop retain_order_for_entries
evict_over_capacity_limit cache active_key capacity =
    let (kept, evicted) =
      evict_loop (evict_fuel (length cache.order)) active_key capacity 0 cache [] in
    (retain_order_for_entries kept, evicted)

pub record CacheInsertResult : Type 0 where
  pub dataset : Memory
  pub inserted : Bool
  pub evicted : List DatasetCacheKey

unfoldable pub insert_if_absent :
    DatasetCache → DatasetCacheKey → Memory → DatasetCache × CacheInsertResult
unfolding get same_key remove_entry retain_order_for_entries evict_over_capacity_limit
insert_if_absent cache key dataset = elim (get cache key) [
  | some existing ↦ (
    retain_order_for_entries cache,
    record { dataset = existing; inserted = false; evicted = [] },
  )
  | none ↦
      let added : DatasetCache = record {
        entries = (key, dataset) ∷ remove_entry key cache.entries;
        order = keep_if (λ queued. not (same_key queued key)) cache.order ++ key ∷ [];
      } in
      let (kept, evicted) = evict_over_capacity_limit added key dataset_cache_capacity in
      (kept, record { dataset = dataset; inserted = true; evicted = evicted })
]

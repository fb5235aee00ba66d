-- ===== src/Chain/Apply/Cache.antt =====
-- chain/accept.rs: the bounded cache of block hashes whose proof of work was verified ahead.
use vision_core.Prelude.{
  ℕ, zero, suc, ◌-◌, Bool, not, List, [], ◌∷◌, ◌++◌, if◌then◌else◌, length, keep_if, Result, ok,
  err,
}
use vision_core.Prelude.Text.{Text, text_eq}
use vision_core.Prelude.Map.{Map, insert, remove, contains_key}
use vision_core.Types.{Block, hash}
use vision_core.External.{External}
use vision_core.Chain.{VisionX}
use vision_core.Chain.Accept.{RejectReason, verify_visionx_pow}

abbrev pub cache_capacity : ℕ
cache_capacity = 500

-- The queue of hashes, oldest first, beside the set of the same hashes.
pub record PowCache : Type 0 where
  pub queue : List Text
  pub members : Map (Unit {0})

-- `while len > 500 { pop_front }`, of at most `excess` rounds
unfoldable pub evict_excess : ℕ → PowCache → PowCache
evict_excess zero cache = cache
evict_excess (suc excess) cache = elim cache.queue [
  | [] ↦ cache
  | evicted ∷ rest ↦
      evict_excess excess (record { queue = rest; members = remove evicted cache.members })
]

unfoldable pub mark_pow_prevalidated : PowCache → Text → PowCache
unfolding evict_excess
mark_pow_prevalidated cache block_hash =
    if contains_key block_hash cache.members
    then cache
    else let queue = cache.queue ++ block_hash ∷ [] in
      evict_excess (length queue - cache_capacity)
        (record { queue = queue; members = insert block_hash tt cache.members })

abbrev pub is_pow_prevalidated : PowCache → Text → Bool
is_pow_prevalidated cache block_hash = contains_key block_hash cache.members

unfoldable pub clear_pow_prevalidation : PowCache → Text → PowCache
clear_pow_prevalidation cache block_hash =
    if contains_key block_hash cache.members
    then record {
      queue = keep_if (λ h. not (text_eq h block_hash)) cache.queue;
      members = remove block_hash cache.members;
    }
    else cache

module _ ⦃ext : External⦄ ⦃pow : VisionX⦄ where
  -- The check before the chain is locked: a hash is cached only when its proof of work holds.
  unfoldable pub verify_pow_only : PowCache → Block → PowCache × Result (Unit {0}) RejectReason
  unfolding mark_pow_prevalidated
  verify_pow_only cache blk = elim (verify_visionx_pow blk) [
    | err r ↦ (cache, err r)
    | ok u ↦ (mark_pow_prevalidated cache (hash blk), ok u)
  ]

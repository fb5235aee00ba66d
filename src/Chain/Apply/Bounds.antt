-- ===== src/Chain/Apply/Bounds.antt =====
-- The bounds of the orphan pool and of the cache of verified proofs of work.
use vision_core.Prelude.{
  ℕ, zero, suc, ◌-◌, ◌≤◌, ◌≡◌, false, not, Option, List, [], ◌∷◌, ◌++◌, length, length-keep_if,
  arith, if◌then◌else◌,
}
use vision_core.Prelude.Text.{Text, text_eq, text_eq_iff}
use vision_core.Prelude.Map.{Map, insert, remove, IsSorted}
use vision_core.Prelude.Map.Laws.{remove-IsSorted, get-remove}
use vision_core.Types.{Block}
use vision_core.External.{External}
use vision_core.Store.{Sled}
use vision_core.Chain.{ChainState, VisionX, OrphanEntry}
use vision_core.Chain.Orphan.{count, orphan_pool_max}
use vision_core.Chain.Step.Frame.{accept_one-IsSorted, accept_one-bound}
use vision_core.Chain.Apply.{Node, apply_block}
use vision_core.Chain.Apply.Keeps.{IsKept, apply_block-keeps}
use vision_core.Chain.Apply.Cache.{
  PowCache, cache_capacity, evict_excess, mark_pow_prevalidated, clear_pow_prevalidation,
  is_pow_prevalidated,
}

-- The pool's keys are ordered, and it holds no more blocks than its limit.
abbrev pub IsBounded : {Db : Type 0} → ChainState Db → Type 0
IsBounded g = (IsSorted g.orphan_pool × (count g.orphan_pool ≤ orphan_pool_max))

count-remove_le : (h : Text) (m : Map (List OrphanEntry)) → count (remove h m) ≤ count m
unfolding count remove
count-remove_le h [] = omega arith
count-remove_le h ((k, v) ∷ m) = ground (arith, count-remove_le h m)

module _ {Db : Type 0} ⦃ext : External⦄ ⦃sled : Sled Db⦄ ⦃pow : VisionX⦄ where
  IsBounded-IsKept : (now : ℕ) → IsKept {Db = Db} now (λ g. IsBounded g)
  IsBounded-IsKept now = record {
    accepts = λ g blk peer h.
        (accept_one-IsSorted now g blk peer h.0, accept_one-bound now g blk peer h.0 h.1);
    takes = λ g h b.
        (remove-IsSorted h g.orphan_pool b.0, omega (arith, b.1, count-remove_le h g.orphan_pool));
    unlists = λ g h b. b;
  }

  -- `apply_block`, with all the promotions it makes, never leaves more orphans than the limit.
  pub apply_block-IsBounded :
      (now : ℕ) (node : Node Db) (blk : Block) (peer : Option Text)
      → IsBounded node.chain
      → IsBounded (apply_block now node blk peer).0.chain
  apply_block-IsBounded now = apply_block-keeps now (λ g. IsBounded g) (IsBounded-IsKept now)

length-evict_excess :
    (n : ℕ) (q : List Text) (m : Map (Unit {0}))
    → length (evict_excess n (record { queue = q; members = m })).queue ≡ length q - n
unfolding evict_excess
length-evict_excess zero q m = omega arith
length-evict_excess (suc n) [] m = omega arith
length-evict_excess (suc n) (x ∷ q) m = omega (arith, length-evict_excess n q (remove x m))

-- Marking a hash leaves at most 500 hashes in the queue of the cache, and clearing one adds none.
pub cache-bound :
    (c : PowCache) (h : Text)
    → length c.queue ≤ cache_capacity
    → (length (mark_pow_prevalidated c h).queue ≤ cache_capacity)
      × (length (clear_pow_prevalidation c h).queue ≤ length c.queue)
unfolding mark_pow_prevalidated clear_pow_prevalidation
cache-bound c h b = (
  ground (
    arith,
    length-evict_excess (length (c.queue ++ h ∷ []) - cache_capacity) (c.queue ++ h ∷ [])
        (insert h tt c.members),
  ),
  ground (arith, length-keep_if (λ t. not (text_eq t h)) c.queue),
)

-- A cleared hash is no longer cached, and no other hash changes.
pub clear-is_pow_prevalidated :
    (c : PowCache) (h t : Text)
    → is_pow_prevalidated (clear_pow_prevalidation c h) t
      ≡ (if text_eq h t then false else is_pow_prevalidated c t)
unfolding clear_pow_prevalidation
clear-is_pow_prevalidated c h t = ground (arith, get-remove h t c.members, text_eq_iff h t)

-- ===== src/Chain/Apply.antt =====
-- chain/accept.rs and chain/orphan.rs: `apply_block` with the promotion of orphans, and the cache of
-- proofs of work that were verified ahead.
pub mod Cache
pub mod Keeps
pub mod Within
pub mod Fuel
pub mod Bounds
use vision_core.Prelude.{
  ℕ, zero, suc, ◌+◌, Bool, true, false, not, ◌&&◌, Option, none, some, List, [], ◌∷◌, ◌==◌,
  if◌then◌else◌, foldl, unwrap_or,
}
use vision_core.Prelude.Text.{Text, text}
use vision_core.Prelude.Map.{get, remove}
use vision_core.Types.{Block, hash}
use vision_core.External.{External}
use vision_core.Store.{Sled}
use vision_core.Chain.{ChainState, OrphanEntry, VisionX}
use vision_core.Chain.Orphan.{count}
use vision_core.Chain.Accept.{
  AcceptResult, canon_extension, side_chain, stored_orphan, rejected, is_accepted, accept_one,
}
use Cache.{PowCache, clear_pow_prevalidation}

-- The chain, and the process-wide cache.
pub record Node (Db : Type 0) : Type 0 where
  pub chain : ChainState Db
  pub pow_cache : PowCache

-- The block entered the chain or the side blocks, above height 0: what ends with `process_orphans`.
abbrev pub promotes : Block → AcceptResult → Bool
promotes blk (canon_extension height) = not (blk.header.number == 0)
promotes blk (side_chain height) = true
promotes blk _ = false

module _ {Db : Type 0} ⦃ext : External⦄ ⦃sled : Sled Db⦄ ⦃pow : VisionX⦄ (now : ℕ) where
  -- `apply_block`, with the promotion of orphans as a parameter.
  unfoldable pub apply_with :
      (Node Db → Text → Node Db) → Node Db → Block → Text → Node Db × AcceptResult
  unfolding clear_pow_prevalidation
  apply_with promote node blk source_peer =
      let (chain, result) = accept_one now node.chain blk source_peer in
      let next : Node Db = record {
        chain = chain;
        pow_cache = clear_pow_prevalidation node.pow_cache (hash blk);
      } in
      let promoted = promote next (hash blk) in
      if promotes blk result then (promoted, result) else (next, result)

  -- The loop of `process_orphans` over the blocks that waited, with the count of those promoted.
  unfoldable pub promote_waiting :
      (Node Db → Text → Node Db) → List OrphanEntry → Node Db × ℕ → Node Db × ℕ
  unfolding apply_with
  promote_waiting promote [] (node, promoted) = (node, promoted)
  promote_waiting promote (o ∷ os) (node, promoted) =
      let unlisted : Node Db = record node {
        chain = record node.chain {
          orphan_by_hash = remove (hash o.block) node.chain.orphan_by_hash;
        };
      } in
      let (next, result) = apply_with promote unlisted o.block o.peer in
      promote_waiting promote os (next, if is_accepted result then promoted + 1 else promoted)

  -- `process_orphans`; the fuel bounds the depth at which promoted blocks promote others.
  unfoldable pub process_orphans : ℕ → Node Db → Text → Node Db × ℕ
  unfolding promote_waiting
  process_orphans zero node parent_hash = (node, 0)
  process_orphans (suc fuel) node parent_hash = elim (get parent_hash node.chain.orphan_pool) [
    | none ↦ (node, 0)
    | some waiting ↦
        promote_waiting (λ n h. (process_orphans fuel n h).0) waiting
          (
            record node {
              chain = record node.chain { orphan_pool = remove parent_hash node.chain.orphan_pool };
            },
            0,
          )
  ]

  -- The fuel is one more than the number of waiting blocks; `Fuel` proves that it is enough.
  unfoldable pub apply_block : Node Db → Block → Option Text → Node Db × AcceptResult
  unfolding apply_with process_orphans
  apply_block node blk source_peer =
      apply_with (λ n h. (process_orphans (count node.chain.orphan_pool + 1) n h).0) node blk
        (unwrap_or source_peer (text "anon"))

-- ===== src/Chain/Apply/Keeps.antt =====
-- Invariants of the chain, lifted from one acceptance to `apply_block` with all its promotions.
use vision_core.Prelude.{
  ℕ, zero, suc, ◌+◌, Option, List, [], ◌∷◌, if◌then◌else◌, unwrap_or, Bool-cases, Option-cases, inl,
  inr,
}
use vision_core.Prelude.Text.{Text, text}
use vision_core.Prelude.Map.{get, remove}
use vision_core.Types.{Block, hash}
use vision_core.External.{External}
use vision_core.Store.{Sled}
use vision_core.Chain.{ChainState, OrphanEntry, VisionX}
use vision_core.Chain.Orphan.{count}
use vision_core.Chain.Accept.{is_accepted, accept_one}
use vision_core.Chain.Apply.{
  Node, promotes, apply_with, promote_waiting, process_orphans, apply_block,
}
use vision_core.Chain.Apply.Cache.{clear_pow_prevalidation}

-- What a predicate on the chain must be kept by: an acceptance, and the two removals of a promotion.
pub record IsKept {Db : Type 0} ⦃ext : External⦄ ⦃sled : Sled Db⦄ ⦃pow : VisionX⦄ (now : ℕ)
    (P : ChainState Db → Type 0) : Type 0 where
  pub accepts :
      (g : ChainState Db) (blk : Block) (peer : Text) → P g → P (accept_one now g blk peer).0
  pub takes :
      (g : ChainState Db) (h : Text) → P g → P (record g { orphan_pool = remove h g.orphan_pool })
  pub unlists :
      (g : ChainState Db) (h : Text)
      → P g
      → P (record g { orphan_by_hash = remove h g.orphan_by_hash })

module _ {Db : Type 0} ⦃ext : External⦄ ⦃sled : Sled Db⦄ ⦃pow : VisionX⦄ (now : ℕ)
    (P : ChainState Db → Type 0) (k : IsKept now P) where
  -- A promotion that keeps the predicate.
  abbrev Promotes : (Node Db → Text → Node Db) → Type 0
  Promotes promote = (n : Node Db) (h : Text) → P n.chain → P (promote n h).chain

  apply_with-keeps :
      (promote : Node Db → Text → Node Db) (node : Node Db) (blk : Block) (peer : Text)
      → Promotes promote
      → P node.chain
      → P (apply_with now promote node blk peer).0.chain
  unfolding apply_with
  apply_with-keeps promote node blk peer p h =
      let (chain, result) = accept_one now node.chain blk peer in
      let next : Node Db = record {
        chain = chain;
        pow_cache = clear_pow_prevalidation node.pow_cache (hash blk);
      } in
      let kept = k.accepts node.chain blk peer h in
      elim (Bool-cases (promotes blk result)) [
        | inl e ↦ rw e (p next (hash blk) kept)
        | inr e ↦ rw e kept
      ]

  promote_waiting-keeps :
      (promote : Node Db → Text → Node Db) (os : List OrphanEntry) (node : Node Db) (promoted : ℕ)
      → Promotes promote
      → P node.chain
      → P (promote_waiting now promote os (node, promoted)).0.chain
  unfolding promote_waiting
  promote_waiting-keeps promote [] node promoted p h = h
  promote_waiting-keeps promote (o ∷ os) node promoted p h =
      let unlisted : Node Db = record node {
        chain = record node.chain {
          orphan_by_hash = remove (hash o.block) node.chain.orphan_by_hash;
        };
      } in
      let (next, result) = apply_with now promote unlisted o.block o.peer in
      promote_waiting-keeps promote os next (if is_accepted result then promoted + 1 else promoted)
        p
        (apply_with-keeps promote unlisted o.block o.peer p (k.unlists node.chain (hash o.block) h))

  pub process_orphans-keeps :
      (fuel : ℕ) (node : Node Db) (h : Text)
      → P node.chain
      → P (process_orphans now fuel node h).0.chain
  unfolding process_orphans
  process_orphans-keeps zero node h p = p
  process_orphans-keeps (suc fuel) node h p = elim (Option-cases (get h node.chain.orphan_pool)) [
    | inl e ↦ rw (e, process_orphans) p
    | inr (waiting, e) ↦
        rw (e, process_orphans)
          (promote_waiting-keeps (λ n j. (process_orphans now fuel n j).0) waiting _ 0
            (λ n j q. process_orphans-keeps fuel n j q) (k.takes node.chain h p))
  ]

  pub apply_block-keeps :
      (node : Node Db) (blk : Block) (peer : Option Text)
      → P node.chain
      → P (apply_block now node blk peer).0.chain
  unfolding apply_block
  apply_block-keeps node blk peer h =
      apply_with-keeps (λ n j. (process_orphans now (count node.chain.orphan_pool + 1) n j).0) node
        blk (unwrap_or peer (text "anon"))
        (λ n j q. process_orphans-keeps (count node.chain.orphan_pool + 1) n j q) h

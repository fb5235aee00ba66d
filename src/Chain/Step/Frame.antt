-- ===== src/Chain/Step/Frame.antt =====
-- What a step does to the orphan pool: only an orphan that is stored changes it.
use vision_core.Prelude.{ℕ, ◌+◌, ◌≤◌, ◌≡◌, refl, ◌∙◌, ap, ◌⊎◌, inl, inr, arith}
use vision_core.Prelude.Text.{Text}
use vision_core.Prelude.Map.{IsSorted}
use vision_core.Types.{Block, hash}
use vision_core.External.{External}
use vision_core.Store.{Sled}
use vision_core.Chain.{ChainState, VisionX, ReorgRecovery}
use vision_core.Chain.Orphan.{count, add_orphan, orphan_pool_max}
use vision_core.Chain.Orphan.Bounds.{count-add_orphan, add_orphan-IsSorted}
use vision_core.Chain.Reorg.Shape.{Switched, try_reorg-Switched, switch_branch-orphan_pool}
use vision_core.Chain.Accept.{AcceptResult, stored_orphan, accept_one, push_canonical, record_side}
use vision_core.Chain.Step.{Step, reject, wait, genesis, extend, side, switch}
use vision_core.Chain.Step.Refines.{accept_one-Step}

module _ {Db : Type 0} ⦃ext : External⦄ ⦃sled : Sled Db⦄ where
  Switched-orphan_pool :
      (g next : ChainState Db) (tip : Block) (recovery : ReorgRecovery)
      → Switched g tip next recovery
      → next.orphan_pool ≡ g.orphan_pool
  Switched-orphan_pool g next tip recovery s =
      ap (λ n. n.orphan_pool) s.next_eq
      ∙ switch_branch-orphan_pool g s.branch.common_hash s.branch.common_height s.branch.segment

  module _ ⦃pow : VisionX⦄ where
    -- The pool is left alone, or it is the pool with the new orphan.
    pub Step-orphan_pool :
        {now : ℕ} {g : ChainState Db} {blk : Block} {peer : Text} {g' : ChainState Db}
        {r : AcceptResult}
        → Step now g blk peer g' r
        → (g'.orphan_pool ≡ g.orphan_pool)
          ⊎ ((g'.orphan_pool ≡ (add_orphan now g blk peer).orphan_pool)
              × (r ≡ stored_orphan (hash blk)))
    unfolding push_canonical
    Step-orphan_pool (reject r) = inl refl
    Step-orphan_pool (wait s n k) = inr (refl, refl)
    Step-orphan_pool (genesis db s n b h p) = inl refl
    Step-orphan_pool (extend state db v t p) = inl refl
    Step-orphan_pool (side state db v t p) = inl refl
    Step-orphan_pool {g = g} {blk = blk} (switch state db next recovery v t p w r) = inl (
        Switched-orphan_pool (record_side g blk db) next blk recovery
          (try_reorg-Switched (record_side g blk db) blk next recovery r))

    -- An acceptance adds at most one orphan.
    pub count-accept_one :
        (now : ℕ) (g : ChainState Db) (blk : Block) (peer : Text)
        → IsSorted g.orphan_pool
        → count (accept_one now g blk peer).0.orphan_pool ≤ count g.orphan_pool + 1
    count-accept_one now g blk peer s = elim (Step-orphan_pool (accept_one-Step now g blk peer)) [
      | inl e ↦ omega (arith, ap count e)
      | inr (e, r) ↦ ground (arith, ap count e, count-add_orphan now g blk peer s)
    ]

    pub accept_one-IsSorted :
        (now : ℕ) (g : ChainState Db) (blk : Block) (peer : Text)
        → IsSorted g.orphan_pool
        → IsSorted (accept_one now g blk peer).0.orphan_pool
    accept_one-IsSorted now g blk peer s =
        elim (Step-orphan_pool (accept_one-Step now g blk peer)) [
          | inl e ↦ rw e s
          | inr (e, r) ↦ rw e (add_orphan-IsSorted now g blk peer s)
        ]

    -- The pool of a node never outgrows its limit.
    pub accept_one-bound :
        (now : ℕ) (g : ChainState Db) (blk : Block) (peer : Text)
        → IsSorted g.orphan_pool
        → count g.orphan_pool ≤ orphan_pool_max
        → count (accept_one now g blk peer).0.orphan_pool ≤ orphan_pool_max
    accept_one-bound now g blk peer s b = elim (Step-orphan_pool (accept_one-Step now g blk peer)) [
      | inl e ↦ omega (arith, ap count e)
      | inr (e, r) ↦ ground (arith, ap count e, count-add_orphan now g blk peer s)
    ]

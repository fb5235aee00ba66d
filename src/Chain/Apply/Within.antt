-- ===== src/Chain/Apply/Within.antt =====
-- The size of the orphan pool through the promotions.
use vision_core.Prelude.{
  ℕ, zero, suc, ◌+◌, ◌≤◌, List, [], ◌∷◌, length, if◌then◌else◌, Bool-cases, Option-cases, inl, inr,
  arith,
}
use vision_core.Prelude.Text.{Text}
use vision_core.Prelude.Map.{get, remove, IsSorted}
use vision_core.Prelude.Map.Laws.{remove-IsSorted}
use vision_core.Types.{Block, hash}
use vision_core.External.{External}
use vision_core.Store.{Sled}
use vision_core.Chain.{OrphanEntry, VisionX}
use vision_core.Chain.Orphan.{count}
use vision_core.Chain.Orphan.Bounds.{count-remove}
use vision_core.Chain.Accept.{is_accepted, accept_one}
use vision_core.Chain.Step.Frame.{count-accept_one, accept_one-IsSorted}
use vision_core.Chain.Apply.{Node, promotes, apply_with, promote_waiting, process_orphans}
use vision_core.Chain.Apply.Cache.{clear_pow_prevalidation}

module _ {Db : Type 0} where
  -- The pool is ordered, and has at most `n` orphans.
  abbrev pub Within : ℕ → Node Db → Type 0
  Within n node = (IsSorted node.chain.orphan_pool × (count node.chain.orphan_pool ≤ n))

  abbrev pub Shrinks : (Node Db → Text → Node Db) → Type 0
  Shrinks f = (n : ℕ) (node : Node Db) (h : Text) → Within n node → Within n (f node h)

  abbrev pub unlist : Node Db → Text → Node Db
  unlist node h = record node {
    chain = record node.chain { orphan_by_hash = remove h node.chain.orphan_by_hash };
  }

  abbrev pub take_waiting : Node Db → Text → Node Db
  take_waiting node h = record node {
    chain = record node.chain { orphan_pool = remove h node.chain.orphan_pool };
  }

module _ {Db : Type 0} ⦃ext : External⦄ ⦃sled : Sled Db⦄ ⦃pow : VisionX⦄ (now : ℕ) where
  -- One application: at most one orphan more.
  pub apply_with-Within :
      (f : Node Db → Text → Node Db) (n : ℕ) (node : Node Db) (blk : Block) (peer : Text)
      → Shrinks f
      → Within n node
      → Within (n + 1) (apply_with now f node blk peer).0
  unfolding apply_with
  apply_with-Within f n node blk peer sh w =
      let (chain, result) = accept_one now node.chain blk peer in
      let next : Node Db = record {
        chain = chain;
        pow_cache = clear_pow_prevalidation node.pow_cache (hash blk);
      } in
      let grown : Within (n + 1) next = (
        accept_one-IsSorted now node.chain blk peer w.0,
        omega (arith, count-accept_one now node.chain blk peer w.0, w.1),
      ) in
      elim (Bool-cases (promotes blk result)) [
        | inl e ↦ rw e (sh (n + 1) next (hash blk) grown)
        | inr e ↦ rw e grown
      ]

  pub promote_waiting-Within :
      (f : Node Db → Text → Node Db) (os : List OrphanEntry) (n : ℕ) (node : Node Db) (promoted : ℕ)
      → Shrinks f
      → Within n node
      → Within (n + length os) (promote_waiting now f os (node, promoted)).0
  unfolding promote_waiting
  promote_waiting-Within f [] n node promoted sh w = (w.0, omega (arith, w.1))
  promote_waiting-Within f (o ∷ os) n node promoted sh w =
      let (next, result) = apply_with now f (unlist node (hash o.block)) o.block o.peer in
      let rest =
        promote_waiting-Within f os (n + 1) next
          (if is_accepted result then promoted + 1 else promoted) sh
          (apply_with-Within f n (unlist node (hash o.block)) o.block o.peer sh w) in
      (rest.0, omega (arith, rest.1))

  pub process_orphans-Within :
      (fuel n : ℕ) (node : Node Db) (h : Text)
      → Within n node
      → Within n (process_orphans now fuel node h).0
  unfolding process_orphans
  process_orphans-Within zero n node h w = w
  process_orphans-Within (suc fuel) n node h w =
      elim (Option-cases (get h node.chain.orphan_pool)) [
        | inl e ↦ rw (e, process_orphans) w
        | inr (waiting, e) ↦
            let taken = count-remove h waiting node.chain.orphan_pool w.0 e in
            let rest =
              promote_waiting-Within (λ m j. (process_orphans now fuel m j).0) waiting
                (count (remove h node.chain.orphan_pool)) (take_waiting node h) 0
                (λ k m j v. process_orphans-Within fuel k m j v)
                (remove-IsSorted h node.chain.orphan_pool w.0, omega arith) in
            rw (e, process_orphans) (rest.0, omega (arith, rest.1, w.1))
      ]

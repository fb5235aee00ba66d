-- ===== src/Chain/Apply/Fuel.antt =====
-- The depth of the promotions: the size of the orphan pool is fuel enough, so `apply_block` computes
-- what the unbounded recursion of the program does.
use vision_core.Prelude.{
  ℕ, zero, suc, ◌+◌, ◌-◌, ◌≤◌, ◌<◌, ◌≡◌, ◌≢◌, refl, ◌∙◌, sym, ap, true, false, Option, some, List,
  [], ◌∷◌, length, if◌then◌else◌, unwrap_or, Bool-cases, Option-cases, inl, inr, arith,
}
use vision_core.Prelude.Text.{Text, text}
use vision_core.Prelude.Map.{get, remove, IsSorted}
use vision_core.Prelude.Map.Laws.{remove-IsSorted}
use vision_core.Types.{Block, hash}
use vision_core.External.{External}
use vision_core.Store.{Sled}
use vision_core.Chain.{OrphanEntry, VisionX}
use vision_core.Chain.Orphan.{count}
use vision_core.Chain.Orphan.Bounds.{count-remove}
use vision_core.Chain.Accept.{AcceptResult, is_accepted, accept_one}
use vision_core.Chain.Step.Frame.{Step-orphan_pool}
use vision_core.Chain.Step.Refines.{accept_one-Step}
use vision_core.Chain.Apply.{
  Node, promotes, apply_with, promote_waiting, process_orphans, apply_block,
}
use vision_core.Chain.Apply.Cache.{clear_pow_prevalidation}
use vision_core.Chain.Apply.Within.{
  Within, Shrinks, unlist, take_waiting, apply_with-Within, process_orphans-Within,
}

module _ {Db : Type 0} ⦃ext : External⦄ ⦃sled : Sled Db⦄ ⦃pow : VisionX⦄ (now : ℕ) where
  -- Two promotions that agree on pools of at most `m` orphans.
  abbrev Agree : ℕ → (Node Db → Text → Node Db) → (Node Db → Text → Node Db) → Type 0
  Agree m f g = (node : Node Db) (h : Text) → Within m node → f node h ≡ g node h

  promotes-pool :
      (node : Node Db) (blk : Block) (peer : Text)
      → promotes blk (accept_one now node.chain blk peer).1 ≡ true
      → (accept_one now node.chain blk peer).0.orphan_pool ≡ node.chain.orphan_pool
  promotes-pool node blk peer p =
      elim (Step-orphan_pool (accept_one-Step now node.chain blk peer)) [
        | inl e ↦ e
        | inr (e, r) ↦ absurd (false_true (sym (ap (promotes blk) r) ∙ p))
      ]
    where
      false_true : false ≢ true
      false_true e = cc

  apply_with-Agree :
      (m : ℕ) (f g : Node Db → Text → Node Db) (node : Node Db) (blk : Block) (peer : Text)
      → Agree m f g
      → Within m node
      → apply_with now f node blk peer ≡ apply_with now g node blk peer
  unfolding apply_with
  apply_with-Agree m f g node blk peer a w =
      let (chain, result) = accept_one now node.chain blk peer in
      let next : Node Db = record {
        chain = chain;
        pow_cache = clear_pow_prevalidation node.pow_cache (hash blk);
      } in
      elim (Bool-cases (promotes blk result)) [
        | inl e ↦
            rw e (ap (λ n. (n, result)) (a next (hash blk) (rw (promotes-pool node blk peer e) w)))
        | inr e ↦ rw e refl
      ]

  promote_waiting-Agree :
      (f g : Node Db → Text → Node Db) (os : List OrphanEntry) (m n : ℕ) (node : Node Db)
      (promoted : ℕ)
      → Agree m f g
      → Shrinks f
      → n + length os ≤ m + 1
      → Within n node
      → promote_waiting now f os (node, promoted) ≡ promote_waiting now g os (node, promoted)
  unfolding promote_waiting
  promote_waiting-Agree f g [] m n node promoted a sh b w = refl
  promote_waiting-Agree f g (o ∷ os) m n node promoted a sh b w =
      let unlisted = unlist node (hash o.block) in
      let (next, result) = apply_with now f unlisted o.block o.peer in
      let step =
        ap
          (λ (p : Node Db × AcceptResult).
            promote_waiting now g os (p.0, if is_accepted p.1 then promoted + 1 else promoted))
          (apply_with-Agree m f g unlisted o.block o.peer a (w.0, omega (arith, w.1))) in
      promote_waiting-Agree f g os m (n + 1) next
        (if is_accepted result then promoted + 1 else promoted) a sh (omega arith)
        (apply_with-Within now f n unlisted o.block o.peer sh w)
      ∙ step

  -- The loops over the blocks that waited for one parent agree, where the promotions agree on the
  -- smaller pools that they see.
  waiting-Agree :
      (f g : Node Db → Text → Node Db) (node : Node Db) (h : Text) (waiting : List OrphanEntry)
      → IsSorted node.chain.orphan_pool
      → get h node.chain.orphan_pool ≡ some waiting
      → Shrinks f
      → ((m : ℕ) → m < count node.chain.orphan_pool → Agree m f g)
      → promote_waiting now f waiting (take_waiting node h, 0)
        ≡ promote_waiting now g waiting (take_waiting node h, 0)
  unfolding promote_waiting
  waiting-Agree f g node h [] s e sh a = refl
  waiting-Agree f g node h (o ∷ os) s e sh a =
      let c = count-remove h (o ∷ os) node.chain.orphan_pool s e in
      promote_waiting-Agree f g (o ∷ os) (count node.chain.orphan_pool - 1)
        (count (remove h node.chain.orphan_pool)) (take_waiting node h) 0
        (a (count node.chain.orphan_pool - 1) (omega arith)) sh (omega arith)
        (remove-IsSorted h node.chain.orphan_pool s, omega arith)

  -- Any fuel above the number of waiting blocks gives the same promotions.
  pub process_orphans-Agree :
      (fuel more : ℕ) (node : Node Db) (h : Text)
      → IsSorted node.chain.orphan_pool
      → count node.chain.orphan_pool < fuel
      → count node.chain.orphan_pool < more
      → process_orphans now fuel node h ≡ process_orphans now more node h
  unfolding process_orphans
  process_orphans-Agree zero more node h s a b = absurd (omega arith)
  process_orphans-Agree (suc fuel) zero node h s a b = absurd (omega arith)
  process_orphans-Agree (suc fuel) (suc more) node h s a b =
      elim (Option-cases (get h node.chain.orphan_pool)) [
        | inl e ↦ rw (e, process_orphans) refl
        | inr (waiting, e) ↦
            rw (e, process_orphans)
              (waiting-Agree (λ n j. (process_orphans now fuel n j).0)
                (λ n j. (process_orphans now more n j).0) node h waiting s e
                (λ k n j v. process_orphans-Within now fuel k n j v)
                (λ m l n j w.
                  ap (λ p. p.0)
                    (process_orphans-Agree fuel more n j w.0 (omega (arith, w.1))
                      (omega (arith, w.1)))))
      ]

  -- `apply_block` with any larger bound on the depth of the promotions gives the same node and result:
  -- the bound it uses is enough, for a pool whose keys are ordered.
  pub apply_block-fuel :
      (fuel : ℕ) (node : Node Db) (blk : Block) (peer : Option Text)
      → IsSorted node.chain.orphan_pool
      → count node.chain.orphan_pool < fuel
      → apply_block now node blk peer
        ≡ apply_with now
            (λ n h. (process_orphans now fuel n h).0)
            node
            blk
            (unwrap_or peer (text "anon"))
  unfolding apply_block
  apply_block-fuel fuel node blk peer s h =
      apply_with-Agree (count node.chain.orphan_pool)
        (λ n j. (process_orphans now (count node.chain.orphan_pool + 1) n j).0)
        (λ n j. (process_orphans now fuel n j).0) node blk (unwrap_or peer (text "anon"))
        (λ n j w.
          ap (λ p. p.0)
            (process_orphans-Agree (count node.chain.orphan_pool + 1) fuel n j w.0
              (omega (arith, w.1)) (omega (arith, w.1))))
        (s, omega arith)

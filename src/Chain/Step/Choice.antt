-- ===== src/Chain/Step/Choice.antt =====
-- Refusals change nothing, and the canonical chain changes only for more work.
use vision_core.Prelude.{
  ℕ, ◌+◌, ◌≤◌, ◌<◌, ◌≡◌, refl, ◌∙◌, sym, ap, ◌⊎◌, inl, inr, false, arith, ◌==◌, ltb→lt, Bool-cases,
  ok, Option, unwrap_or,
}
use vision_core.Prelude.Text.{Text, text, text_eq_iff}
use vision_core.Prelude.Bytes.{u128_mod}
use vision_core.Types.{Block}
use vision_core.External.{External}
use vision_core.Transaction.Execute.{TxExecutionState}
use vision_core.Store.{Sled}
use vision_core.Chain.{ChainState, VisionX, tip_hash}
use vision_core.Chain.Orphan.{count}
use vision_core.Chain.Orphan.Shape.{add_orphan-Differs}
use vision_core.Chain.Accept.{
  AcceptResult, RejectReason, rejected, accept_one, validate, candidate_cw, work_of, push_canonical,
}
use vision_core.Chain.Step.{Step, reject, wait, genesis, extend, side, switch}
use vision_core.Chain.Step.Refines.{accept_one-Step}
use vision_core.Chain.Apply.{Node, apply_with, apply_block, promotes, process_orphans}

module _ {Db : Type 0} ⦃ext : External⦄ ⦃sled : Sled Db⦄ ⦃pow : VisionX⦄ where
  Step-rejected :
      {now : ℕ} {g : ChainState Db} {blk : Block} {peer : Text} {g' : ChainState Db}
      {r : AcceptResult} (why : RejectReason)
      → Step now g blk peer g' r
      → r ≡ rejected why
      → g' ≡ g
  Step-rejected why (reject x) e = refl
  Step-rejected why (wait s n k) e = cc
  Step-rejected why (genesis db s n b h p) e = cc
  Step-rejected why (extend state db v t p) e = cc
  Step-rejected why (side state db v t p) e = cc
  Step-rejected why (switch state db next recovery v t p w r) e = cc

  apply_with-result :
      (now : ℕ) (f : Node Db → Text → Node Db) (node : Node Db) (blk : Block) (peer : Text)
      → (apply_with now f node blk peer).1 ≡ (accept_one now node.chain blk peer).1
  unfolding apply_with
  apply_with-result now f node blk peer =
      elim (Bool-cases (promotes blk (accept_one now node.chain blk peer).1)) [
        | inl e ↦ rw e refl
        | inr e ↦ rw e refl
      ]

  apply_with-rejected :
      (now : ℕ) (f : Node Db → Text → Node Db) (node : Node Db) (blk : Block) (peer : Text)
      (why : RejectReason)
      → (accept_one now node.chain blk peer).1 ≡ rejected why
      → (apply_with now f node blk peer).0.chain ≡ node.chain
  unfolding apply_with
  apply_with-rejected now f node blk peer why r =
      rw (ap (promotes blk) r) (Step-rejected why (accept_one-Step now node.chain blk peer) r)

  -- A block that `apply_block` refuses leaves the whole chain state as it was.
  pub apply_block-rejected :
      (now : ℕ) (node : Node Db) (blk : Block) (peer : Option Text) (why : RejectReason)
      → (apply_block now node blk peer).1 ≡ rejected why
      → (apply_block now node blk peer).0.chain ≡ node.chain
  unfolding apply_block
  apply_block-rejected now node blk peer why e =
      let promote : Node Db → Text → Node Db =
        λ n h. (process_orphans now (count node.chain.orphan_pool + 1) n h).0 in
      let source = unwrap_or peer (text "anon") in
      apply_with-rejected now promote node blk source why
        (sym (apply_with-result now promote node blk source) ∙ e)

  validate-floor :
      (now : ℕ) (g : ChainState Db) (parent blk : Block) (state : TxExecutionState)
      → validate now g parent blk ≡ ok state
      → 1 ≤ blk.header.difficulty
  unfolding validate
  validate-floor now g parent blk state e = ground arith

  Step-more_work :
      {now : ℕ} {g : ChainState Db} {blk : Block} {peer : Text} {g' : ChainState Db}
      {r : AcceptResult}
      → Step now g blk peer g' r
      → (blk.header.number == 0) ≡ false
      → work_of g (tip_hash g) + blk.header.difficulty < u128_mod
      → (g'.blocks ≡ g.blocks) ⊎ (work_of g (tip_hash g) < candidate_cw g blk)
  unfolding candidate_cw push_canonical
  Step-more_work (reject r) z o = inl refl
  Step-more_work {now} {g} {blk} {peer} (wait s n k) z o =
      let (pool, by_hash, e) = add_orphan-Differs now g blk peer in inl (ap (λ n. n.blocks) e)
  Step-more_work (genesis db s n b h p) z o = absurd (ground (arith, n, z))
  Step-more_work {now} {g} {blk} (extend state db v t p) z o = inr (
      ground (
        arith,
        text_eq_iff blk.header.parent_hash (tip_hash g),
        validate-floor now g v.parent blk state v.valid,
        o,
        t,
      ))
  Step-more_work (side state db v t p) z o = inl refl
  Step-more_work (switch state db next recovery v t p w r) z o = inr (ltb→lt _ _ w)

  -- The canonical chain changes only for a block whose branch has strictly more work than the tip: a
  -- block above height 0 leaves the canonical blocks alone, or the work up to it is above the tip's,
  -- where that work with the block's difficulty fits 128 bits.
  pub accept_one-more_work :
      (now : ℕ) (g : ChainState Db) (blk : Block) (peer : Text)
      → (blk.header.number == 0) ≡ false
      → work_of g (tip_hash g) + blk.header.difficulty < u128_mod
      → ((accept_one now g blk peer).0.blocks ≡ g.blocks)
        ⊎ (work_of g (tip_hash g) < candidate_cw g blk)
  accept_one-more_work now g blk peer z o = Step-more_work (accept_one-Step now g blk peer) z o

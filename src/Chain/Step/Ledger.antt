-- ===== src/Chain/Step/Ledger.antt =====
-- The ledger invariant: the balances and nonces of the chain are the replay of its blocks.
use vision_core.Prelude.{
  Option, ◌≤◌, ℕ, ◌+◌, ◌≡◌, ◌≢◌, refl, ◌∙◌, sym, ap, subst, List, [], ◌∷◌, ◌++◌, take, ok, arith,
  true,
}
use vision_core.Prelude.Text.{Text, text_eq}
use vision_core.Types.{Block}
use vision_core.External.{External}
use vision_core.Transaction.Execute.{TxExecutionState, new}
use vision_core.Store.{Sled}
use vision_core.Chain.{ChainState, VisionX, ReorgRecovery, tip_hash}
use vision_core.Chain.Replay.{run_block, run_blocks, check_canonical_state_at_height}
use vision_core.Chain.Replay.Laws.{run_blocks-append, check_blocks-run, branch-run}
use vision_core.Chain.Reorg.Shape.{
  validate_branch-IsBranch, Switched, try_reorg-Switched, switch_branch-blocks,
}
use vision_core.Chain.Accept.{
  AcceptResult, accept_one, validate, execute_block, parent_state, push_canonical, record_side,
}
use vision_core.Chain.Step.{IsValid, Step, extended, reject, wait, genesis, extend, side, switch}
use vision_core.Chain.Apply.{Node, apply_block}
use vision_core.Chain.Apply.Keeps.{IsKept, apply_block-keeps}
use vision_core.Chain.Replay.Supply.{subsidies, chain-supply}
use vision_core.Prelude.Map.Total.{total}
use vision_core.Chain.Step.Refines.{accept_one-Step}
use vision_core.Chain.Orphan.Shape.{add_orphan-Differs}

abbrev pub ledger : {Db : Type 0} → ChainState Db → TxExecutionState
ledger g = record { balances = g.balances; nonces = g.nonces }

-- The chain has its genesis, and its account state is the replay of its blocks.
pub record HasLedger {Db : Type 0} ⦃ext : External⦄ (g : ChainState Db) : Type 0 where
  pub started : g.blocks ≢ []
  pub replays : run_blocks new g.blocks ≡ ok (ledger g)

module _ {Db : Type 0} ⦃ext : External⦄ where
  pub same_ledger :
      (g h : ChainState Db) → g.blocks ≡ h.blocks → ledger g ≡ ledger h → HasLedger g → HasLedger h
  same_ledger g h b l p = record {
    started = λ e. p.started (b ∙ e);
    replays = ap (run_blocks new) (sym b) ∙ p.replays ∙ ap ok l;
  }

  -- One more block on the tip.
  run_blocks-push :
      (g : ChainState Db) (blk : Block) (state : TxExecutionState)
      → HasLedger g
      → run_block (ledger g) blk ≡ ok state
      → run_blocks new (g.blocks ++ blk ∷ []) ≡ ok state
  unfolding run_blocks
  run_blocks-push g blk state h e =
      run_blocks-append g.blocks (blk ∷ []) new ∙ rw h.replays (rw (e, run_blocks) refl)

  execute_block-run :
      (g : ChainState Db) (blk : Block) (state : TxExecutionState)
      → text_eq blk.header.parent_hash (tip_hash g) ≡ true
      → execute_block g blk ≡ ok state
      → run_block (ledger g) blk ≡ ok state
  unfolding execute_block parent_state
  execute_block-run g blk state t e = ground (arith, t)

  -- A reorganisation leaves the replay of the blocks that it leaves.
  switch-HasLedger :
      ⦃sled : Sled Db⦄
      → (g next : ChainState Db) (tip : Block) (recovery : ReorgRecovery)
      → Switched g tip next recovery
      → HasLedger next
  unfolding check_canonical_state_at_height
  switch-HasLedger g next tip recovery s =
      let b = s.branch in
      let v = validate_branch-IsBranch g tip b s.valid in
      let blocks = switch_branch-blocks g b.common_hash b.common_height b.segment in
      let ancestor =
        check_blocks-run (take (b.common_height + 1) g.blocks) new v.ancestor v.replayed in
      let segment = branch-run b.segment b.common_hash v.ancestor b.replay_state v.branch in
      subst HasLedger (sym s.next_eq) (record {
        started = λ e. ground (arith, v.first, sym blocks ∙ e);
        replays =
            ap (run_blocks new) blocks
            ∙ run_blocks-append (take (b.common_height + 1) g.blocks) b.segment new
            ∙ rw (ancestor, segment) refl;
      })

  module _ ⦃pow : VisionX⦄ where
    validate-execute :
        (now : ℕ) (g : ChainState Db) (parent blk : Block) (state : TxExecutionState)
        → validate now g parent blk ≡ ok state
        → execute_block g blk ≡ ok state
    unfolding validate
    validate-execute now g parent blk state e = ground arith

    module _ ⦃sled : Sled Db⦄ where
      extend-HasLedger :
          (now : ℕ) (g : ChainState Db) (blk : Block) (state : TxExecutionState) (db : Db)
          → HasLedger g
          → IsValid now g blk state
          → text_eq blk.header.parent_hash (tip_hash g) ≡ true
          → HasLedger (extended g blk state db)
      unfolding push_canonical
      extend-HasLedger now g blk state db h v t = record {
        started = λ e. append_nonempty g.blocks e;
        replays =
            run_blocks-push g blk state h
              (execute_block-run g blk state t (validate-execute now g v.parent blk state v.valid));
      }
        where
          append_nonempty : (xs : List Block) → xs ++ blk ∷ [] ≢ []
          append_nonempty [] e = cc
          append_nonempty (x ∷ xs) e = cc

      Step-HasLedger :
          {now : ℕ} {g : ChainState Db} {blk : Block} {peer : Text} {g' : ChainState Db}
          {r : AcceptResult}
          → Step now g blk peer g' r
          → HasLedger g
          → HasLedger g'
      unfolding push_canonical
      Step-HasLedger (reject r) h = h
      Step-HasLedger {now} {g} {blk = blk} {peer} (wait s n k) h =
          let (pool, by_hash, e) = add_orphan-Differs now g blk peer in
          subst HasLedger (sym e) (same_ledger g _ refl refl h)
      Step-HasLedger (genesis db s n b e p) h = absurd (h.started b)
      Step-HasLedger {now} {g} {blk = blk} (extend state db v t p) h =
          same_ledger (extended g blk state db) _ refl refl
            (extend-HasLedger now g blk state db h v t)
      Step-HasLedger (side state db v t p) h = same_ledger _ _ refl refl h
      Step-HasLedger {g = g} {blk = blk} (switch state db next recovery v t p w r) h =
          same_ledger next _ refl refl (
            switch-HasLedger (record_side g blk db) next blk recovery
              (try_reorg-Switched (record_side g blk db) blk next recovery r))

      -- Block acceptance keeps the ledger: after any block, on the tip, on a side chain, in a switch
      -- of branches or refused, the balances and nonces are the replay of the canonical blocks.
      pub accept_one-HasLedger :
          (now : ℕ) (g : ChainState Db) (blk : Block) (peer : Text)
          → HasLedger g
          → HasLedger (accept_one now g blk peer).0
      accept_one-HasLedger now g blk peer h = Step-HasLedger (accept_one-Step now g blk peer) h

      ledger-IsKept : (now : ℕ) → IsKept {Db = Db} now (λ g. HasLedger g)
      ledger-IsKept now = record {
        accepts = accept_one-HasLedger now;
        takes = λ g h p. same_ledger g _ refl refl p;
        unlists = λ g h p. same_ledger g _ refl refl p;
      }

      -- `apply_block` with all the promotions it makes keeps the ledger: the balances and nonces are
      -- the replay of the canonical blocks from the empty state, for a chain that has its genesis.
      pub apply_block-HasLedger :
          (now : ℕ) (node : Node Db) (blk : Block) (peer : Option Text)
          → HasLedger node.chain
          → HasLedger (apply_block now node blk peer).0.chain
      apply_block-HasLedger now = apply_block-keeps now (λ g. HasLedger g) (ledger-IsKept now)

      -- After `apply_block` the sum of all balances is at most the subsidies of the canonical blocks.
      pub apply_block-supply :
          (now : ℕ) (node : Node Db) (blk : Block) (peer : Option Text)
          → HasLedger node.chain
          → total (apply_block now node blk peer).0.chain.balances
            ≤ subsidies (apply_block now node blk peer).0.chain.blocks
      apply_block-supply now node blk peer h =
          chain-supply (apply_block now node blk peer).0.chain.blocks
            (ledger (apply_block now node blk peer).0.chain)
            (apply_block-HasLedger now node blk peer h).replays

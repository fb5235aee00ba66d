-- ===== src/Node/Bootstrap/Ledger.antt =====
-- The ledger after a startup: a rebuilt chain has the account state of its blocks.
use vision_core.Prelude.{
  ℕ, zero, suc, ◌+◌, ◌≡◌, refl, ◌∙◌, sym, ap, subst, not, true, false, none, List, [], ◌∷◌, ◌++◌,
  ◌==◌, ok, bind-ok, if-ok, ◌≤◌, ok-injective, Bool-cases, inl, inr, arith,
}
use vision_core.Prelude.Text.{Text, text}
use vision_core.Types.{Block}
use vision_core.External.{External}
use vision_core.Genesis.{genesis_block}
use vision_core.Transaction.Execute.{new}
use vision_core.Store.{Sled}
use vision_core.Chain.{ChainState, VisionX, refresh_cached_state_root_from_tip}
use vision_core.Chain.Replay.Supply.{subsidies, chain-supply}
use vision_core.Prelude.Map.Total.{total}
use vision_core.Chain.Replay.{run_block, run_blocks}
use vision_core.Chain.Accept.{
  AcceptResult, canon_extension, rejected, accept_one, push_canonical, side_chain, stored_orphan,
}
use vision_core.Chain.Apply.{Node, apply_block, apply_with, process_orphans, promotes}
use vision_core.Chain.Orphan.{count}
use vision_core.Chain.Step.{Step, reject, wait, genesis, extend, side, switch}
use vision_core.Chain.Step.Refines.{accept_one-Step}
use vision_core.Chain.Step.Ledger.{HasLedger, ledger, same_ledger, apply_block-HasLedger}
use vision_core.Node.Bootstrap.{
  extended_to, with_chain, refresh, clear_canonical, persisted_tip, block_for, collect_blocks,
  replay_block, replay_heights, rebuild_blocks, rebuild_canonical_state_from_genesis,
}

not_promoted :
    (blk : Block) (height : ℕ) (r : AcceptResult)
    → (blk.header.number == 0) ≡ true
    → extended_to height r ≡ true
    → promotes blk r ≡ false
not_promoted blk height (canon_extension a) z e = ap not z
not_promoted blk height (side_chain a) z e = cc
not_promoted blk height (stored_orphan h) z e = refl
not_promoted blk height (rejected r) z e = refl

genesis_runs : ⦃ext : External⦄ → run_block new genesis_block ≡ ok new
unfolding run_block genesis_block
genesis_runs = refl

genesis_first : (genesis_block.header.number == 0) ≡ true
unfolding genesis_block
genesis_first = refl

module _ {Db : Type 0} ⦃ext : External⦄ where
  -- A first block that runs to nothing starts the ledger.
  started-HasLedger :
      (g : ChainState Db) (blk : Block) (db : Db) (cw : ℕ)
      → g.blocks ≡ []
      → ledger g ≡ new
      → run_block new blk ≡ ok new
      → HasLedger (push_canonical (record g { db = db }) blk cw)
  unfolding push_canonical run_blocks
  started-HasLedger g blk db cw eb el run = record {
    started = λ e. cc (ap (λ bs. bs ++ blk ∷ []) eb, e);
    replays = ap (λ bs. run_blocks new (bs ++ blk ∷ [])) eb ∙ rw (run, run_blocks) (ap ok (sym el));
  }

module _ {Db : Type 0} ⦃ext : External⦄ ⦃sled : Sled Db⦄ ⦃pow : VisionX⦄ (now : ℕ) where
  opening-HasLedger :
      {g : ChainState Db} {blk : Block} {peer : Text} {g' : ChainState Db} {r : AcceptResult}
      → Step now g blk peer g' r
      → (height : ℕ) → extended_to height r ≡ true
      → (blk.header.number == 0) ≡ true
      → g.blocks ≡ []
      → ledger g ≡ new
      → run_block new blk ≡ ok new
      → HasLedger g'
  opening-HasLedger (reject r) height e z eb el run = cc
  opening-HasLedger (wait s n k) height e z eb el run = cc
  opening-HasLedger {g} {blk} (genesis db s n b h p) height e z eb el run =
      started-HasLedger g blk db blk.header.difficulty eb el run
  opening-HasLedger (extend state db v t p) height e z eb el run = absurd (cc (v.above, z))
  opening-HasLedger (side state db v t p) height e z eb el run = cc
  opening-HasLedger (switch state db next recovery v t p w r) height e z eb el run =
      absurd (cc (v.above, z))

  module _ (promote : Node Db → Text → Node Db) (node : Node Db) (blk : Block) (peer : Text) where
    apply_with-result :
        (apply_with now promote node blk peer).1 ≡ (accept_one now node.chain blk peer).1
    unfolding apply_with
    apply_with-result = elim (Bool-cases (promotes blk (accept_one now node.chain blk peer).1)) [
      | inl e ↦ rw e refl
      | inr e ↦ rw e refl
    ]

    apply_with-chain :
        promotes blk (accept_one now node.chain blk peer).1 ≡ false
        → (apply_with now promote node blk peer).0.chain ≡ (accept_one now node.chain blk peer).0
    unfolding apply_with
    apply_with-chain e = rw e refl

    first_applied-HasLedger :
        (height : ℕ)
        → (blk.header.number == 0) ≡ true
        → node.chain.blocks ≡ []
        → ledger node.chain ≡ new
        → run_block new blk ≡ ok new
        → extended_to height (apply_with now promote node blk peer).1 ≡ true
        → HasLedger (apply_with now promote node blk peer).0.chain
    first_applied-HasLedger height z eb el run e =
        let extends = ap (extended_to height) (sym apply_with-result) ∙ e in
        let alone = apply_with-chain (not_promoted blk height _ z extends) in
        subst HasLedger (sym alone)
          (opening-HasLedger (accept_one-Step now node.chain blk peer) height extends z eb el run)

  replay_block-ok :
      (node next : Node Db) (block : Block) (height : ℕ)
      → replay_block now node block height ≡ ok next
      → (extended_to height (apply_block now node block none).1 ≡ true)
        × (refresh (apply_block now node block none).0 ≡ next)
  unfolding replay_block
  replay_block-ok node next block height e =
      if-ok (extended_to height (apply_block now node block none).1)
        (refresh (apply_block now node block none).0) next (text "startup replay rejected") e

  refresh-HasLedger :
      (g : ChainState Db) → HasLedger g → HasLedger (refresh_cached_state_root_from_tip g)
  unfolding refresh_cached_state_root_from_tip
  refresh-HasLedger g h = same_ledger g _ refl refl h

  -- The genesis block on a chain without blocks and accounts, where it extends the chain.
  genesis_applied-HasLedger :
      (node next : Node Db) (height : ℕ)
      → node.chain.blocks ≡ []
      → ledger node.chain ≡ new
      → replay_block now node genesis_block height ≡ ok next
      → HasLedger next.chain
  unfolding apply_block
  genesis_applied-HasLedger node next height eb el e =
      let (extends, refreshed) = replay_block-ok node next genesis_block height e in
      subst (λ n. HasLedger n.chain) refreshed
        (refresh-HasLedger _ (
          first_applied-HasLedger
            (λ n h. (process_orphans now (count node.chain.orphan_pool + 1) n h).0) node
            genesis_block (text "anon") height genesis_first eb el genesis_runs extends))

  replay_block-HasLedger :
      (node next : Node Db) (block : Block) (height : ℕ)
      → HasLedger node.chain
      → replay_block now node block height ≡ ok next
      → HasLedger next.chain
  replay_block-HasLedger node next block height h e =
      let (extends, refreshed) = replay_block-ok node next block height e in
      subst (λ n. HasLedger n.chain) refreshed
        (refresh-HasLedger _ (apply_block-HasLedger now node block none h))

  rebuild_blocks-HasLedger :
      (blocks : List Block) (node next : Node Db)
      → HasLedger node.chain
      → rebuild_blocks now blocks node ≡ ok next
      → HasLedger next.chain
  unfolding rebuild_blocks
  rebuild_blocks-HasLedger [] node next h e = subst (λ n. HasLedger n.chain) (ok-injective e) h
  rebuild_blocks-HasLedger (block ∷ blocks) node next h e =
      let (mid, replayed, rest) =
        bind-ok (replay_block now node block block.header.number) _ next e in
      rebuild_blocks-HasLedger blocks mid next
        (replay_block-HasLedger node mid block block.header.number h replayed) rest

  replay_heights-HasLedger :
      (rounds height : ℕ) (node next : Node Db)
      → HasLedger node.chain
      → replay_heights now rounds height node ≡ ok next
      → HasLedger next.chain
  unfolding replay_heights
  replay_heights-HasLedger zero height node next h e =
      subst (λ n. HasLedger n.chain) (ok-injective e) h
  replay_heights-HasLedger (suc rounds) height node next h e =
      let (block, found, e1) = bind-ok (block_for node.chain.db height) _ next e in
      let (mid, replayed, rest) = bind-ok (replay_block now node block height) _ next e1 in
      replay_heights-HasLedger rounds (height + 1) mid next
        (replay_block-HasLedger node mid block height h replayed) rest

  collect_blocks-first :
      (n : ℕ) (db : Db) (first : Block) (blocks : List Block)
      → block_for db 0 ≡ ok first
      → collect_blocks (suc n) 0 db ≡ ok blocks
      → (rest : List Block) × (first ∷ rest ≡ blocks)
  unfolding collect_blocks
  collect_blocks-first n db first blocks found e =
      let (block, found', e1) = bind-ok (block_for db 0) _ blocks e in
      let (rest, more, e2) = bind-ok (collect_blocks n 1 db) _ blocks e1 in
      (rest, ap (λ b. b ∷ rest) (ok-injective (sym found ∙ found')) ∙ ok-injective e2)

  rebuilt-HasLedger :
      (node built : Node Db) (rest : List Block)
      → rebuild_blocks now (genesis_block ∷ rest) (with_chain node (clear_canonical node.chain))
        ≡ ok built
      → HasLedger built.chain
  unfolding rebuild_blocks clear_canonical
  rebuilt-HasLedger node built rest e =
      let cleared = with_chain node (clear_canonical node.chain) in
      let (mid, first, later) =
        bind-ok (replay_block now cleared genesis_block genesis_block.header.number) _ built e in
      rebuild_blocks-HasLedger rest mid built
        (genesis_applied-HasLedger cleared mid genesis_block.header.number refl refl first) later

  -- A rebuild from the genesis that succeeds leaves a chain whose balances and nonces are the replay
  -- of its canonical blocks, and so hold no more than their subsidies, where the block stored for
  -- height 0 is the fixed genesis.
  pub rebuild-HasLedger :
      (node next : Node Db) (tip : ℕ)
      → block_for node.chain.db 0 ≡ ok genesis_block
      → rebuild_canonical_state_from_genesis now node ≡ ok (next, tip)
      → HasLedger next.chain × (total next.chain.balances ≤ subsidies next.chain.blocks)
  unfolding rebuild_canonical_state_from_genesis
  rebuild-HasLedger node next tip found e =
      let (tip_height, et, e1) = bind-ok (persisted_tip node.chain.db) _ (next, tip) e in
      let (blocks, ec, e2) =
        bind-ok (collect_blocks (tip_height + 1) 0 node.chain.db) _ (next, tip) e1 in
      let cleared = with_chain node (clear_canonical node.chain) in
      let (built, er, e3) = bind-ok (rebuild_blocks now blocks cleared) _ (next, tip) e2 in
      let one : tip_height + 1 ≡ suc tip_height = omega arith in
      let (rest, shape) =
        collect_blocks-first tip_height node.chain.db genesis_block blocks found
          (ap (λ n. collect_blocks n 0 node.chain.db) (sym one) ∙ ec) in
      let ran = ap (λ bs. rebuild_blocks now bs cleared) shape ∙ er in
      let kept = rebuilt-HasLedger node built rest ran in
      let same : built ≡ next = ap (λ p. p.0) (ok-injective e3) in
      let h = subst (λ n. HasLedger n.chain) same kept in
      (h, chain-supply next.chain.blocks (ledger next.chain) h.replays)

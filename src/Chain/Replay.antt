-- ===== src/Chain/Replay.antt =====
-- The execution of blocks on an account state: `execute_non_coinbase_txs` and the reconstructions of
-- chain/accept.rs, and the checked ones of chain/reorg.rs.
pub mod Laws
pub mod Supply
pub mod Walk
use vision_core.Prelude.{
  ℕ, suc, zero, ◌+◌, Option, none, some, List, [], ◌∷◌, ◌++◌, ◌==◌, if◌then◌else◌, take, drop,
  reverse, Result, ok, err, ◌>>=◌, ◌>>◌, map_err, ensure,
}
use vision_core.Prelude.Text.{Text, text_eq}
use vision_core.Prelude.Map.{get}
use vision_core.Types.{Tx, Block, hash}
use vision_core.External.{External}
use vision_core.Transaction.Execute.{TxExecutionState, TxExecutionError, simulate_tx_execution, new}
use vision_core.Miner.{apply_coinbase_reward, CoinbaseError}
use vision_core.StateRoot.{compute_state_root}
use vision_core.Chain.{ChainState}

-- The ways in which a block fails to run. The source of chain/accept.rs has them as messages.
pub data ReplayError : Type 0 where
  execution : TxExecutionError → ReplayError
  coinbase_reward : CoinbaseError → ReplayError
  state_root_construction_failed : ReplayError
  state_root_mismatch : (block_hash expected computed : Text) → ReplayError
  broken_ancestry : (expected_parent got_parent : Text) → ReplayError
  broken_side_chain : (parent_hash : Text) → ReplayError

module _ {Db : Type 0} where
  -- The walk from a hash through the side blocks to a canonical ancestor: the ancestor's height, and
  -- the side blocks above it, oldest first. Each step spends fuel.
  unfoldable pub walk_back : ℕ → ChainState Db → Text → List Block → Option (ℕ × List Block)
  walk_back zero g current branch = none
  walk_back (suc fuel) g current branch = elim (get current g.canon_index) [
    | some height ↦ some (height, branch)
    | none ↦ elim (get current g.side_blocks) [
      | none ↦ none
      | some blk ↦ walk_back fuel g blk.header.parent_hash (blk ∷ branch)
    ]
  ]

  -- Timestamps fall along the walk, so that of its first block bounds its length.
  unfoldable pub walk_fuel : ChainState Db → Text → ℕ
  walk_fuel g current = elim (get current g.side_blocks) [
    | none ↦ 1
    | some blk ↦ blk.header.timestamp + 2
  ]

module _ ⦃ext : External⦄ where
  -- Transactions in turn, up to the first that fails.
  unfoldable pub execute_txs : TxExecutionState → List Tx → Result TxExecutionState ReplayError
  execute_txs state [] = ok state
  execute_txs state (tx ∷ txs) =
      let (next, result) = simulate_tx_execution state tx in
      map_err execution result >>= λ _. execute_txs next txs

  abbrev pub execute_non_coinbase_txs :
      TxExecutionState → Block → Result TxExecutionState ReplayError
  execute_non_coinbase_txs state blk = execute_txs state (drop 1 blk.txs)

  -- The coinbase of every block but the genesis.
  unfoldable pub reward_block : TxExecutionState → Block → Result TxExecutionState ReplayError
  reward_block state blk =
      if blk.header.number == 0
      then ok state
      else map_err coinbase_reward (apply_coinbase_reward state blk.header.miner blk.header.number)

  -- The body of the loops of chain/accept.rs.
  unfoldable pub run_block : TxExecutionState → Block → Result TxExecutionState ReplayError
  unfolding execute_txs reward_block
  run_block state blk = do executed ← execute_non_coinbase_txs state blk; reward_block executed blk

  unfoldable pub run_blocks : TxExecutionState → List Block → Result TxExecutionState ReplayError
  unfolding run_block
  run_blocks state [] = ok state
  run_blocks state (blk ∷ blks) = do next ← run_block state blk; run_blocks next blks

  -- The state root check of chain/reorg.rs.
  unfoldable pub check_root : TxExecutionState → Block → Result (Unit {0}) ReplayError
  check_root state blk = do
    computed_root ←
        map_err (λ _. state_root_construction_failed)
          (compute_state_root state.balances state.nonces)
    ensure (text_eq computed_root blk.header.state_root)
        (state_root_mismatch (hash blk) blk.header.state_root computed_root)

  -- The body of the loops of chain/reorg.rs: every block but the genesis must have the root that it says.
  unfoldable pub check_block : TxExecutionState → Block → Result TxExecutionState ReplayError
  unfolding run_block check_root
  check_block state blk = do
    next ← run_block state blk
    if blk.header.number == 0 then ok tt else check_root next blk
    ok next

  unfoldable pub check_blocks : TxExecutionState → List Block → Result TxExecutionState ReplayError
  unfolding check_block
  check_blocks state [] = ok state
  check_blocks state (blk ∷ blks) = do next ← check_block state blk; check_blocks next blks

  unfoldable pub reconstruct_branch_state :
      Text → TxExecutionState → List Block → Result TxExecutionState ReplayError
  unfolding check_block
  reconstruct_branch_state expected_parent state [] = ok state
  reconstruct_branch_state expected_parent state (blk ∷ branch) = do
    ensure (text_eq blk.header.parent_hash expected_parent)
        (broken_ancestry expected_parent blk.header.parent_hash)
    next ← check_block state blk
    reconstruct_branch_state (hash blk) next branch

  module _ {Db : Type 0} where
    -- `reconstruct_canonical_state_at_height` of chain/accept.rs
    unfoldable pub reconstruct_canonical_state_at_height :
        ChainState Db → ℕ → Result TxExecutionState ReplayError
    unfolding run_blocks
    reconstruct_canonical_state_at_height g height = run_blocks new (take (height + 1) g.blocks)

    -- `reconstruct_canonical_state_at_height` of chain/reorg.rs
    unfoldable pub check_canonical_state_at_height :
        ChainState Db → ℕ → Result TxExecutionState ReplayError
    unfolding check_blocks
    check_canonical_state_at_height g height = check_blocks new (take (height + 1) g.blocks)

    unfoldable pub reconstruct_parent_state_for_side_chain :
        ChainState Db → Text → Result TxExecutionState ReplayError
    unfolding walk_back walk_fuel reconstruct_canonical_state_at_height run_blocks
    reconstruct_parent_state_for_side_chain g parent_hash =
        elim (walk_back (walk_fuel g parent_hash) g parent_hash []) [
          | none ↦ err (broken_side_chain parent_hash)
          | some (height, branch) ↦ do
            state ← reconstruct_canonical_state_at_height g height
            run_blocks state branch
        ]

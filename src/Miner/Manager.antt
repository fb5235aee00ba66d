-- ===== src/Miner/Manager.antt =====
-- miner/manager.rs: the job that the workers share, the candidate for the tip of the chain, and the
-- submission of a block that was found. The counter of job ids is process-wide, so it is an argument.
pub mod Offers
pub mod Stale
use vision_core.Prelude.{
  ℕ, ◌+◌, ◌-◌, ◌%◌, max, Bool, true, false, not, Option, none, some, List, [], ◌∷◌, ◌==◌,
  if◌then◌else◌, is_some, last?, take, drop, reverse, Result, ok, err,
}
use vision_core.Prelude.Text.{Text}
use vision_core.Prelude.Bytes.{u64_mod}
use vision_core.Types.{Tx, Block}
use vision_core.External.{External}
use vision_core.Store.{Sled}
use vision_core.Block.{canonical_bytes}
use vision_core.Difficulty.{retarget_window}
use vision_core.Transaction.Execute.{TxExecutionState, simulate_tx_execution}
use vision_core.StateRoot.{compute_state_root}
use vision_core.Miner.{MiningJob, build_candidate, apply_coinbase_reward}
use vision_core.Chain.{ChainState, VisionX, refresh_cached_state_root_from_tip}
use vision_core.Chain.Accept.{AcceptResult, canon_extension, side_chain, stored_orphan, rejected}
use vision_core.Chain.Apply.{Node, apply_block}

-- `MinerInner` behind its lock, without the time of the start, and the id that the workers poll.
pub record MinerManager : Type 0 where
  pub current_job : Option MiningJob
  pub last_built_epoch : Option ℕ
  pub blocks_found : ℕ
  pub active_job_id : ℕ

unfoldable pub new : MinerManager
new = record { current_job = none; last_built_epoch = none; blocks_found = 0; active_job_id = 0 }

unfoldable pub build_job : MinerManager → MiningJob → MinerManager
build_job m job = record m {
  last_built_epoch = some job.epoch;
  active_job_id = job.job_id;
  current_job = some job;
}

unfoldable pub clear_job : MinerManager → MinerManager
clear_job m = record m { active_job_id = 0; current_job = none }

unfoldable pub is_current_job : MinerManager → ℕ → Bool
is_current_job m job_id = m.active_job_id == job_id

abbrev pub is_mining : MinerManager → Bool
is_mining m = is_some m.current_job

abbrev pub record_block_found : MinerManager → MinerManager
record_block_found m = record m { blocks_found = (m.blocks_found + 1) % u64_mod }

-- `NEXT_JOB_ID.fetch_add(1)`: the id, and the counter after it.
abbrev pub next_job_id : ℕ → ℕ × ℕ
next_job_id counter = (counter, (counter + 1) % u64_mod)

-- Strictly after the tip, in 64 bits.
abbrev pub candidate_time : ℕ → Block → ℕ
candidate_time now tip = max now ((tip.header.timestamp + 1) % u64_mod)

module _ ⦃ext : External⦄ where
  -- The transactions in turn; the first that fails ends it.
  unfoldable pub run_candidate : TxExecutionState → List Tx → Option TxExecutionState
  run_candidate state [] = some state
  run_candidate state (tx ∷ txs) =
      let (next, result) = simulate_tx_execution state tx in
      elim result [ ok outcome ↦ run_candidate next txs | err e ↦ none ]

  -- The reward and the root of what it leaves.
  unfoldable pub candidate_root : TxExecutionState → Text → ℕ → Option Text
  candidate_root state miner_addr height = elim (apply_coinbase_reward state miner_addr height) [
    | err e ↦ none
    | ok paid ↦ elim (compute_state_root paid.balances paid.nonces) [
      | err e ↦ none
      | ok root ↦ some root
    ]
  ]

  abbrev pub with_root : MiningJob → Text → MiningJob
  with_root job root =
      let header_template = record job.header_template { state_root = root } in
      record job {
        header_template = header_template;
        header_bytes = canonical_bytes header_template;
      }

  -- A job whose transactions run on the state of the tip gets the root that they lead to.
  unfoldable pub complete_job : TxExecutionState → Text → ℕ → MiningJob → Option MiningJob
  unfolding run_candidate candidate_root
  complete_job state miner_addr height job = elim (run_candidate state (drop 1 job.txs)) [
    | none ↦ none
    | some executed ↦ elim (candidate_root executed miner_addr height) [
      | none ↦ none
      | some root ↦ some (with_root job root)
    ]
  ]

  module _ {Db : Type 0} where
    -- `TxExecutionState::from_balances_and_nonces` of the chain's.
    abbrev pub state_of : ChainState Db → TxExecutionState
    state_of g = record { balances = g.balances; nonces = g.nonces }

    abbrev pub ancestor_window : ChainState Db → List Block
    ancestor_window g = reverse (take (retarget_window + 1) (reverse g.blocks))

    module _ (epoch_of : ℕ → ℕ) (now counter : ℕ) where
      unfoldable pub candidate_on : ChainState Db → Block → Text → List Tx → MiningJob
      unfolding build_candidate
      candidate_on g tip miner_addr mempool_txs =
          build_candidate epoch_of tip (next_job_id counter).0 miner_addr mempool_txs
            (ancestor_window g) (candidate_time now tip)

      -- The job, and the counter of job ids, which a chain without blocks leaves alone.
      unfoldable pub build_candidate_for_tip : ChainState Db → Text → List Tx → Option MiningJob × ℕ
      unfolding complete_job candidate_on
      build_candidate_for_tip g miner_addr mempool_txs = elim (last? g.blocks) [
        | none ↦ (none, counter)
        | some tip ↦ (
          complete_job (state_of g) miner_addr (tip.header.number + 1)
              (candidate_on g tip miner_addr mempool_txs),
          (next_job_id counter).1,
        )
      ]

    module _ ⦃sled : Sled Db⦄ ⦃pow : VisionX⦄ (now : ℕ) where
      -- What an accepted block changes besides the chain.
      abbrev pub record_result : MinerManager → Node Db → AcceptResult → MinerManager × Node Db
      record_result m node (canon_extension height) = (
        record_block_found m,
        record node { chain = refresh_cached_state_root_from_tip node.chain },
      )
      record_result m node _ = (m, node)

      unfoldable pub submit_solution :
          MinerManager → Node Db → Block → (MinerManager × Node Db) × AcceptResult
      unfolding apply_block refresh_cached_state_root_from_tip
      submit_solution m node block =
          let (next, result) = apply_block now node block none in
          (record_result m next result, result)

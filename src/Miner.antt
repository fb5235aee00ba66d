-- ===== src/Miner.antt =====
-- miner/job.rs: the block subsidy and the candidate that a miner works on; and
-- `apply_coinbase_reward` of chain/accept.rs, which pays the subsidy.
pub mod Supply
pub mod Candidate
pub mod Manager
use vision_core.Prelude.{
  ℕ, ◌+◌, ◌-◌, ◌/◌, ◌%◌, ◌^◌, ◌&&◌, List, [], ◌∷◌, ltb, take, if◌then◌else◌, Result, ok, err, ◌>>=◌,
  ◌>>◌, ensure, ok_or,
}
use vision_core.Prelude.Text.{Text, text}
use vision_core.Prelude.Bytes.{Bytes, u128_mod, to_be_bytes}
use vision_core.Prelude.Map.{insert}
use vision_core.Types.{Tx, Block, BlockHeader, hash}
use vision_core.External.{External}
use vision_core.Transaction.{is_lowercase_hex_32_bytes}
use vision_core.Transaction.Execute.{TxExecutionState, balance_of, checked_add}
use vision_core.Difficulty.{calculate_next_difficulty}
use vision_core.Block.{null_hash, root_of, canonical_bytes}

abbrev pub emission_per_block : ℕ
emission_per_block = 510000000000

abbrev pub halving_interval : ℕ
halving_interval = 2102400

abbrev pub block_target_txs : ℕ
block_target_txs = 200

-- The shift of a 128-bit number takes its count modulo 128 in a release build.
unfoldable pub block_reward : ℕ → ℕ
block_reward height = emission_per_block / 2 ^ (height / halving_interval % 128)

pub data CoinbaseError : Type 0 where
  invalid_miner_address coinbase_reward_overflow : CoinbaseError

-- The miner's check of `apply_coinbase_reward` is that of a 32-byte lowercase hex key.
unfoldable pub apply_coinbase_reward :
    TxExecutionState → Text → ℕ → Result TxExecutionState CoinbaseError
unfolding block_reward
apply_coinbase_reward state miner height = do
  ensure (is_lowercase_hex_32_bytes miner) invalid_miner_address
  balance ←
      ok_or (checked_add u128_mod (balance_of state miner) (block_reward height))
        coinbase_reward_overflow
  ok (record state { balances = insert miner balance state.balances })

unfoldable pub coinbase_tx : ℕ → Tx
coinbase_tx height = record {
  nonce = height;
  sender_pubkey = [];
  module_name = text "coinbase";
  method = text "reward";
  args = to_be_bytes 8 height;
  tip = 0;
  fee_limit = 0;
  sig = [];
}

pub record MiningJob : Type 0 where
  pub header_template : BlockHeader
  pub target_difficulty : ℕ
  pub epoch : ℕ
  pub header_bytes : Bytes
  pub job_id : ℕ
  pub txs : List Tx

module _ ⦃ext : External⦄ where
  module _ (epoch_of : ℕ → ℕ) where
    -- `build_candidate_with_params`; `epoch_of` is the epoch of the VisionX parameters
    unfoldable pub build_candidate : Block → ℕ → Text → List Tx → List Block → ℕ → MiningJob
    unfolding coinbase_tx
    build_candidate tip job_id miner_addr extra_txs ancestor_window now_secs =
        let height = tip.header.number + 1 in
        let txs = coinbase_tx height ∷ take (block_target_txs - 1) extra_txs in
        let difficulty = calculate_next_difficulty ancestor_window now_secs in
        let header_template : BlockHeader = record {
          parent_hash = hash tip;
          number = height;
          timestamp = now_secs;
          difficulty = difficulty;
          nonce = 0;
          pow_hash = [];
          state_root = null_hash;
          tx_root = root_of txs;
          miner = miner_addr;
        } in
        record {
          header_template = header_template;
          target_difficulty = difficulty;
          epoch = epoch_of height;
          header_bytes = canonical_bytes header_template;
          job_id = job_id;
          txs = txs;
        }

-- ===== src/Miner/Candidate.antt =====
-- What the miner's candidate is to the rules of block acceptance.
use vision_core.Prelude.{ℕ, ◌+◌, ◌≡◌, ◌<◌, ◌≤◌, refl, List, length, length-take, head?, some, arith}
use vision_core.Prelude.Text.{Text}
use vision_core.Prelude.Bytes.{u64_mod, from_be_bytes}
use vision_core.Prelude.Bytes.Codec.{from_be-to_be, length-to_be_bytes}
use vision_core.Types.{Tx, Block, hash}
use vision_core.External.{External}
use vision_core.Difficulty.{calculate_next_difficulty}
use vision_core.Block.{compute_tx_root}
use vision_core.Miner.{MiningJob, build_candidate, coinbase_tx, block_target_txs}

-- The block that a worker makes of a job: a nonce, a hash, and the number of transactions as weight.
abbrev pub solved : MiningJob → ℕ → Text → Block
solved job nonce pow_hash = record {
  header = record job.header_template { nonce = nonce; pow_hash = pow_hash };
  txs = job.txs;
  weight = length job.txs;
}

-- What block acceptance checks of a block without its state: the root, the coinbase in front with
-- the height in 8 bytes, the weight, the parent, the height and the expected difficulty.
pub record IsCandidate ⦃ext : External⦄ (tip : Block) (window : List Block) (b : Block)
    : Type 0 where
  pub root : b.header.tx_root ≡ compute_tx_root b
  pub coinbase : head? b.txs ≡ some (coinbase_tx b.header.number)
  pub args_length : length (coinbase_tx b.header.number).args ≡ 8
  pub args_height : from_be_bytes (coinbase_tx b.header.number).args ≡ b.header.number
  pub weight : b.weight ≤ block_target_txs
  pub parent : b.header.parent_hash ≡ hash tip
  pub number : b.header.number ≡ tip.header.number + 1
  pub difficulty : b.header.difficulty ≡ calculate_next_difficulty window b.header.timestamp

module _ ⦃ext : External⦄ where
  -- A candidate solved with any nonce and hash passes the checks of block acceptance that need no
  -- state, for a tip whose next height fits 64 bits.
  pub build_candidate-IsCandidate :
      (epoch_of : ℕ → ℕ) (tip : Block) (job_id : ℕ) (miner_addr : Text) (extra_txs : List Tx)
      (window : List Block) (now_secs nonce : ℕ) (pow_hash : Text)
      → tip.header.number + 1 < u64_mod
      → IsCandidate tip window (
          solved
            (build_candidate epoch_of tip job_id miner_addr extra_txs window now_secs)
            nonce
            pow_hash)
  unfolding build_candidate compute_tx_root coinbase_tx
  build_candidate-IsCandidate epoch_of tip job_id miner_addr extra_txs window now_secs nonce
        pow_hash h =
      record {
        root = refl;
        coinbase = refl;
        args_length = length-to_be_bytes 8 (tip.header.number + 1);
        args_height = from_be-to_be 8 (tip.header.number + 1) h;
        weight = omega (arith, length-take 199 extra_txs);
        parent = refl;
        number = refl;
        difficulty = refl;
      }

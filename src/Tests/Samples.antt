-- ===== src/Tests/Samples.antt =====
-- The sample data of the tests.
use vision_core.Prelude.{ℕ, ◌++◌, none, [], ◌∷◌, replicate}
use vision_core.Prelude.Text.{Text, text}
use vision_core.Prelude.Bytes.{Bytes}
use vision_core.Prelude.Map.{Map}
use vision_core.Types.{Tx, Block}
use vision_core.Transaction.Execute.{TxExecutionState}
use vision_core.Block.{null_hash}
use vision_core.Chain.{ChainState}
use vision_core.Chain.Accept.{genesis_hash}
use vision_core.Chain.Apply.{Node}

abbrev pub alice : Text
alice = replicate 64 b'a'

abbrev pub bob : Text
bob = replicate 64 b'b'

abbrev pub payment_args : Bytes
payment_args = bob ++ 5 ∷ 0 ∷ 0 ∷ 0 ∷ 0 ∷ 0 ∷ 0 ∷ 0 ∷ []

-- Alice pays 5 to Bob, with a tip of 2.
abbrev pub payment : Tx
payment = record {
  nonce = 0;
  sender_pubkey = alice;
  module_name = text "cash";
  method = text "transfer";
  args = payment_args;
  tip = 2;
  fee_limit = 300;
  sig = replicate 128 b'c';
}

abbrev pub accounts : TxExecutionState
accounts = record { balances = (alice, 100) ∷ []; nonces = [] }

abbrev pub block_of : ℕ → ℕ → Text → Text → Block
block_of number timestamp parent pow_hash = record {
  header = record {
    parent_hash = parent;
    number = number;
    timestamp = timestamp;
    difficulty = 1;
    nonce = 0;
    pow_hash = pow_hash;
    state_root = null_hash;
    tx_root = null_hash;
    miner = alice;
  };
  txs = [];
  weight = 1;
}

abbrev pub genesis_block : Block
genesis_block = block_of 0 1000 null_hash genesis_hash

-- A chain with the genesis only.
abbrev pub young_chain : ChainState (Map Bytes)
young_chain = record {
  blocks = genesis_block ∷ [];
  difficulty = 1;
  balances = [];
  nonces = [];
  seen_txs = [];
  seen_blocks = (genesis_hash, tt) ∷ [];
  side_blocks = [];
  cumulative_work = (genesis_hash, 1) ∷ [];
  orphan_pool = [];
  orphan_by_hash = [];
  canon_index = (genesis_hash, 0) ∷ [];
  cached_state_root = none;
  pending_reorg_recovery = none;
  db = [];
}

abbrev pub young_node : Node (Map Bytes)
young_node = record { chain = young_chain; pow_cache = record { queue = []; members = [] } }

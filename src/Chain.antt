-- ===== src/Chain.antt =====
-- chain/state.rs: the chain state, its queries and its account operations.
pub mod Replay
pub mod Orphan
pub mod Reorg
pub mod Accept
pub mod Snapshot
pub mod Reload
pub mod Restore
pub mod Step
pub mod Apply
use vision_core.Prelude.{
  ℕ, ◌+◌, ◌-◌, min, Option, none, some, List, [], ◌∷◌, ltb, if◌then◌else◌, last?, get_elem?,
  unwrap_or, Result, ok, err,
}
use vision_core.Prelude.Text.{Text}
use vision_core.Prelude.Bytes.{u128_mod}
use vision_core.Prelude.Map.{Map, get, insert}
use vision_core.Types.{Tx, Block, BlockHeader, hash}
use vision_core.Difficulty.{difficulty_floor}
use vision_core.Block.{null_hash}
use mathlib.Core.Option

-- `ReorgRecovery` of chain/reorg.rs
pub record ReorgRecovery : Type 0 where
  pub displaced_txs : List Tx
  pub winning_tx_ids : List Text

-- A block that waits for its parent, with its time of arrival and the peer that sent it.
pub record OrphanEntry : Type 0 where
  pub block : Block
  pub arrival : ℕ
  pub peer : Text

-- A `BTreeSet` is a map to the unit; `canon_index` is a `HashMap` that the program never iterates.
pub record ChainState (Db : Type 0) : Type 0 where
  pub blocks : List Block
  pub difficulty : ℕ
  pub balances : Map ℕ
  pub nonces : Map ℕ
  pub seen_txs : Map (Unit {0})
  pub seen_blocks : Map (Unit {0})
  pub side_blocks : Map Block
  pub cumulative_work : Map ℕ
  pub orphan_pool : Map (List OrphanEntry)
  pub orphan_by_hash : Map Text
  pub canon_index : Map ℕ
  pub cached_state_root : Option (ℕ × Text)
  pub pending_reorg_recovery : Option ReorgRecovery
  pub db : Db

-- `historical_block_digest` and the epoch of the VisionX parameters (pow/visionx.rs)
pub record VisionX : Type 0 where
  pub epoch : ℕ → ℕ
  pub block_digest : (epoch : ℕ) → BlockHeader → Option (List ℕ)

abbrev number_of : Block → ℕ
number_of b = b.header.number

abbrev root_entry : Block → ℕ × Text
root_entry tip = (tip.header.number, tip.header.state_root)

module _ {Db : Type 0} where
  unfoldable pub empty : Db → ChainState Db
  empty db = record {
    blocks = [];
    difficulty = difficulty_floor;
    balances = [];
    nonces = [];
    seen_txs = [];
    seen_blocks = [];
    side_blocks = [];
    cumulative_work = [];
    orphan_pool = [];
    orphan_by_hash = [];
    canon_index = [];
    cached_state_root = none;
    pending_reorg_recovery = none;
    db = db;
  }

  unfoldable pub current_height : ChainState Db → ℕ
  current_height g = unwrap_or (Option.map number_of (last? g.blocks)) 0

  unfoldable pub tip_hash : ChainState Db → Text
  tip_hash g = unwrap_or (Option.map hash (last? g.blocks)) null_hash

  abbrev pub block_at : ChainState Db → ℕ → Option Block
  block_at g height = get_elem? g.blocks height

  -- `block_by_hash`, and `resolve_block` of chain/accept.rs, which has the same body
  unfoldable pub block_by_hash : ChainState Db → Text → Option Block
  block_by_hash g h = elim (get h g.canon_index) [
    | some height ↦ get_elem? g.blocks height
    | none ↦ get h g.side_blocks
  ]

  abbrev pub balance_of : ChainState Db → Text → ℕ
  balance_of g address = unwrap_or (get address g.balances) 0

  abbrev pub nonce_of : ChainState Db → Text → ℕ
  nonce_of g address = unwrap_or (get address g.nonces) 0

  unfoldable pub credit_balance : ChainState Db → Text → ℕ → ChainState Db
  credit_balance g address amount = record g {
    balances = insert address (min (balance_of g address + amount) (u128_mod - 1)) g.balances;
  }

  -- The error carries the balance and the amount needed.
  unfoldable pub debit_balance : ChainState Db → Text → ℕ → Result (ChainState Db) (ℕ × ℕ)
  debit_balance g address amount =
      let bal = balance_of g address in
      if ltb bal amount
      then err (bal, amount)
      else ok (record g { balances = insert address (bal - amount) g.balances })

  unfoldable pub advance_nonce : ChainState Db → Text → ℕ → ChainState Db
  advance_nonce g address next_nonce =
      let entry = nonce_of g address in
      record g {
        nonces = insert address (if ltb entry next_nonce then next_nonce else entry) g.nonces;
      }

  unfoldable pub refresh_cached_state_root_from_tip : ChainState Db → ChainState Db
  refresh_cached_state_root_from_tip g = record g {
    cached_state_root = Option.map root_entry (last? g.blocks);
  }

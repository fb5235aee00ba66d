-- ===== src/Types.antt =====
-- The data that every part shares: types/transaction.rs, types/header.rs and types/block.rs.
-- Numbers are the native ℕ with the width written where the code computes; hashes, keys and
-- addresses are `Text`, the bytes of a Rust `String`.
use vision_core.Prelude.{ℕ, List}
use vision_core.Prelude.Text.{Text}
use vision_core.Prelude.Bytes.{Bytes}

pub record Tx : Type 0 where
  pub nonce : ℕ
  pub sender_pubkey : Text
  pub module_name : Text
  pub method : Text
  pub args : Bytes
  pub tip : ℕ
  pub fee_limit : ℕ
  pub sig : Text

pub record CashTransferArgs : Type 0 where
  pub to : Text
  pub amount : ℕ

pub record BlockHeader : Type 0 where
  pub parent_hash : Text
  pub number : ℕ
  pub timestamp : ℕ
  pub difficulty : ℕ
  pub nonce : ℕ
  pub pow_hash : Text
  pub state_root : Text
  pub tx_root : Text
  pub miner : Text

pub record Block : Type 0 where
  pub header : BlockHeader
  pub txs : List Tx
  pub weight : ℕ

-- `Block::hash`
abbrev pub hash : Block → Text
hash b = b.header.pow_hash

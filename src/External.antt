-- ===== src/External.antt =====
-- The third-party code that the program calls (blake3, hex, bincode, serde_json, ed25519_dalek), as
-- an interface that the model takes. Its functions are total and deterministic; a call that can
-- fail returns an option.
use vision_core.Prelude.{ℕ, Bool, Option}
use vision_core.Prelude.Map.{Map}
use vision_core.Prelude.Text.{Text}
use vision_core.Prelude.Bytes.{Bytes}
use vision_core.Types.{Tx, CashTransferArgs, Block}

pub record External : Type 0 where
  -- the digest of the concatenated input
  pub blake3 : Bytes → Bytes
  pub hex_encode : Bytes → Text
  pub hex_decode : Text → Option Bytes
  -- `bincode::serialize`, which the code expects never to fail on a transaction
  pub serialize_tx : Tx → Bytes
  -- `bincode` at blocks
  pub serialize_block : Block → Bytes
  pub deserialize_block : Bytes → Option Block
  -- `bincode` at the values of a snapshot: balances and nonces, the index entry, the root
  pub serialize_balances : Map ℕ → Bytes
  pub serialize_nonces : Map ℕ → Bytes
  pub serialize_index : ℕ → Text → Bytes
  pub serialize_text : Text → Bytes
  pub deserialize_balances : Bytes → Option (Map ℕ)
  pub deserialize_nonces : Bytes → Option (Map ℕ)
  pub deserialize_index : Bytes → Option (ℕ × Text)
  pub deserialize_text : Bytes → Option Text
  -- `serde_json::from_slice` at `CashTransferArgs`
  pub args_from_json : Bytes → Option CashTransferArgs
  -- `VerifyingKey::from_bytes`
  pub is_verifying_key : Bytes → Bool
  -- `Verifier::verify`: key, message, signature
  pub verify : Bytes → Bytes → Bytes → Bool

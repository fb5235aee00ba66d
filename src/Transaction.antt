-- ===== src/Transaction.antt =====
-- types/transaction.rs: the transaction id, signature checks and the stateless rules.
-- The transfer against balances and nonces is in the child `Execute`.
pub mod Execute
use vision_core.Prelude.{
  ℕ, ◌*◌, Bool, true, false, not, ◌&&◌, ◌||◌, Option, none, some, [], ltb, leb, ◌==◌, if◌then◌else◌,
  length, all, Result, ok, err, ◌>>=◌, ◌>>◌, ensure, ok_or, map_err,
}
use vision_core.Prelude.Text.{Text, text, text_eq}
use vision_core.Prelude.Bytes.{Bytes}
use vision_core.Types.{Tx, CashTransferArgs}
use vision_core.External.{External}

pub data TxSignatureError : Type 0 where
  sender_pubkey_wrong_length sender_pubkey_not_lowercase_hex : TxSignatureError
  signature_wrong_length signature_not_lowercase_hex : TxSignatureError
  malformed_public_key invalid_signature : TxSignatureError

pub data TxValidationError : Type 0 where
  tx_too_large missing_sender_pubkey missing_signature : TxValidationError
  unsupported_module_method bad_transfer_args invalid_transfer_destination : TxValidationError
  transfer_amount_zero transfer_to_self fee_limit_too_low : TxValidationError
  signature : TxSignatureError → TxValidationError

abbrev pub max_serialized_tx_bytes : ℕ
max_serialized_tx_bytes = 64 * 1024

abbrev pub min_cash_transfer_fee_limit : ℕ
min_cash_transfer_fee_limit = 201

abbrev pub cash_transfer_base_fee : ℕ
cash_transfer_base_fee = 1

abbrev pub is_lower_hex_byte : ℕ → Bool
is_lower_hex_byte b = (leb b'0' b && leb b b'9') || (leb b'a' b && leb b b'f')

unfoldable pub is_lowercase_hex : Text → Bool
is_lowercase_hex s = all is_lower_hex_byte s

unfoldable pub is_lowercase_hex_32_bytes : Text → Bool
unfolding is_lowercase_hex
is_lowercase_hex_32_bytes s = length s == 64 && is_lowercase_hex s

-- `s.is_empty()`
abbrev pub is_empty : Text → Bool
is_empty s = length s == 0

-- `bytes.try_into()` at an array of `n` bytes
abbrev sized : ℕ → Bytes → Option Bytes
sized n bytes = if length bytes == n then some bytes else none

module _ ⦃ext : External⦄ where
  unfoldable pub canonical_unsigned_payload : Tx → Bytes
  canonical_unsigned_payload tx = ext.serialize_tx (record tx { sig = [] })

  unfoldable pub canonical_tx_id : Tx → Text
  unfolding canonical_unsigned_payload
  canonical_tx_id tx = ext.hex_encode (ext.blake3 (canonical_unsigned_payload tx))

  -- `Tx::tx_id`, the id of older call sites, over the signed bytes
  unfoldable pub tx_id : Tx → Text
  tx_id tx = ext.hex_encode (ext.blake3 (ext.serialize_tx tx))

  unfoldable pub decode_sender_pubkey : Text → Result Bytes TxSignatureError
  unfolding is_lowercase_hex
  decode_sender_pubkey sender_pubkey = do
    ensure (length sender_pubkey == 64) sender_pubkey_wrong_length
    ensure (is_lowercase_hex sender_pubkey) sender_pubkey_not_lowercase_hex
    bytes ← ok_or (ext.hex_decode sender_pubkey) sender_pubkey_not_lowercase_hex
    ok_or (sized 32 bytes) sender_pubkey_wrong_length

  unfoldable pub decode_signature : Text → Result Bytes TxSignatureError
  unfolding is_lowercase_hex
  decode_signature sig = do
    ensure (length sig == 128) signature_wrong_length
    ensure (is_lowercase_hex sig) signature_not_lowercase_hex
    bytes ← ok_or (ext.hex_decode sig) signature_not_lowercase_hex
    ok_or (sized 64 bytes) signature_wrong_length

  unfoldable pub verify_tx_signature : Tx → Result (Unit {0}) TxSignatureError
  unfolding decode_sender_pubkey decode_signature canonical_unsigned_payload
  verify_tx_signature tx = do
    pubkey_bytes ← decode_sender_pubkey tx.sender_pubkey
    sig_bytes ← decode_signature tx.sig
    ensure (ext.is_verifying_key pubkey_bytes) malformed_public_key
    ensure (ext.verify pubkey_bytes (canonical_unsigned_payload tx) sig_bytes) invalid_signature

  unfoldable pub serialized_tx_size : Tx → ℕ
  serialized_tx_size tx = length (ext.serialize_tx tx)

  unfoldable pub decode_cash_transfer_args : Bytes → Result CashTransferArgs TxValidationError
  decode_cash_transfer_args args = ok_or (ext.args_from_json args) bad_transfer_args

  unfoldable pub validate_cash_transfer_stateless : Tx → Result (Unit {0}) TxValidationError
  validate_cash_transfer_stateless tx = do
    ensure (leb min_cash_transfer_fee_limit tx.fee_limit) fee_limit_too_low
    map_err signature (verify_tx_signature tx)
    args ← decode_cash_transfer_args tx.args
    ensure (is_lowercase_hex_32_bytes args.to) invalid_transfer_destination
    ensure (not (args.amount == 0)) transfer_amount_zero
    ensure (not (text_eq args.to tx.sender_pubkey)) transfer_to_self

  unfoldable pub validate_tx_stateless : Tx → Result (Unit {0}) TxValidationError
  unfolding validate_cash_transfer_stateless serialized_tx_size
  validate_tx_stateless tx =
      if ltb max_serialized_tx_bytes (serialized_tx_size tx)
      then err tx_too_large
      else if text_eq tx.module_name (text "coinbase") && text_eq tx.method (text "reward")
      then ok tt
      else if is_empty tx.sender_pubkey
      then err missing_sender_pubkey
      else if is_empty tx.sig
      then err missing_signature
      else if text_eq tx.module_name (text "cash") && text_eq tx.method (text "transfer")
      then validate_cash_transfer_stateless tx
      else err unsupported_module_method

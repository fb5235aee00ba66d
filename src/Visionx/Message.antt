-- ===== src/Visionx/Message.antt =====
-- pow/historical_vpow.rs: the bytes of a header that the digest is over.
pub mod Layout
use vision_core.Prelude.{
  ℕ, ◌+◌, Bool, true, false, Option, none, some, List, [], ◌∷◌, ◌++◌, length, take, drop, ltb, ◌==◌,
  if◌then◌else◌, Result, ok, err, ◌>>=◌, ◌>>◌, ensure, ok_or,
}
use vision_core.Prelude.Text.{Text, text, text_eq}
use vision_core.Prelude.Bytes.{Bytes, to_le_bytes, to_be_bytes, from_be_bytes}
use vision_core.Types.{BlockHeader}
use vision_core.External.{External}

abbrev pub vpow_magic : Bytes
vpow_magic = text "VPOW"

abbrev pub vpow_version : ℕ
vpow_version = 1

abbrev pub historical_vpow_nonce_offset : ℕ
historical_vpow_nonce_offset = 64

-- The errors, which the source has as messages; a label is the name of a field.
pub data MessageError : Type 0 where
  invalid_hex : (label : Text) → MessageError
  bad_length : (label : Text) (got : ℕ) → MessageError

-- `s.strip_prefix("0x").unwrap_or(s)`
unfoldable pub strip_0x : Text → Text
unfolding text_eq
strip_0x s = if text_eq (take 2 s) (text "0x") then drop 2 s else s

-- The fixed fields between the two hashes.
abbrev pub numbers : BlockHeader → Bytes
numbers h =
    to_le_bytes 8 h.number
    ++ (to_le_bytes 8 h.timestamp ++ (to_le_bytes 8 h.difficulty ++ to_be_bytes 8 h.nonce))

-- What follows the numbers.
abbrev pub ending : Bytes → Text → Bytes
ending tx_root miner = tx_root ++ (to_le_bytes 4 (length miner) ++ miner)

module _ ⦃ext : External⦄ where
  unfoldable pub decode_hash_32 : Text → Text → Result Bytes MessageError
  unfolding strip_0x
  decode_hash_32 label s = do
    bytes ← ok_or (ext.hex_decode (strip_0x s)) (invalid_hex label)
    ensure (length bytes == 32) (bad_length label (length bytes))
    ok bytes

  unfoldable pub historical_vpow_message_bytes : BlockHeader → Result Bytes MessageError
  unfolding decode_hash_32 to_le_bytes to_be_bytes
  historical_vpow_message_bytes header = do
    parent_hash ← decode_hash_32 (text "parent_hash") header.parent_hash
    tx_root ← decode_hash_32 (text "tx_root") header.tx_root
    ok (
        vpow_magic
        ++ (to_le_bytes 4 vpow_version
            ++ (parent_hash ++ (numbers header ++ ending tx_root header.miner))))

  unfoldable pub historical_vpow_message_bytes_with_nonce_zero :
      BlockHeader → Result Bytes MessageError
  unfolding historical_vpow_message_bytes
  historical_vpow_message_bytes_with_nonce_zero header =
      historical_vpow_message_bytes (record header { nonce = 0 })

-- pow/visionx.rs: the eight bytes at an offset of the message; `checked_add` fails beyond `usize`.
unfoldable pub nonce_from_header : Bytes → ℕ → Option ℕ
unfolding from_be_bytes
nonce_from_header header_with_nonce nonce_offset =
    if ltb (length header_with_nonce) (nonce_offset + 8)
    then none
    else some (from_be_bytes (take 8 (drop nonce_offset header_with_nonce)))

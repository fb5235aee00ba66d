-- ===== src/Block.antt =====
-- types/block.rs and types/header.rs: the transaction root and the header's byte layout.
pub mod Layout
use vision_core.Prelude.{
  ℕ, ◌-◌, min, Option, none, some, List, [], ◌∷◌, ◌++◌, map, length, take, drop, replicate,
  unwrap_or,
}
use vision_core.Prelude.Text.{Text}
use vision_core.Prelude.Bytes.{Bytes, to_be_bytes}
use vision_core.Types.{Tx, Block, BlockHeader}
use vision_core.External.{External}
use vision_core.Transaction.{canonical_tx_id}

abbrev pub block_version : ℕ
block_version = 1

-- `"0".repeat(64)`
abbrev pub null_hash : Text
null_hash = replicate 64 b'0'

module _ ⦃ext : External⦄ where
  -- The bytes that the hasher is fed: each id in turn.
  unfoldable pub tx_ids_bytes : List Tx → Bytes
  tx_ids_bytes [] = []
  tx_ids_bytes (tx ∷ txs) = canonical_tx_id tx ++ tx_ids_bytes txs

  -- The root of at least one transaction; the miner computes it with the same loop.
  unfoldable pub root_of : List Tx → Text
  unfolding tx_ids_bytes
  root_of txs = ext.hex_encode (ext.blake3 (tx_ids_bytes txs))

  unfoldable pub compute_tx_root : Block → Text
  unfolding root_of
  compute_tx_root b = elim b.txs [ [] ↦ null_hash | tx ∷ txs ↦ root_of (tx ∷ txs) ]

  -- The decoded hash, cut to 32 bytes or filled with zeros; all zeros when it is not hex.
  unfoldable pub decode_hash_32 : Text → Bytes
  decode_hash_32 hex_str =
      let raw = unwrap_or (ext.hex_decode hex_str) (replicate 32 0) in
      let len = min (length raw) 32 in take len raw ++ drop len (replicate 32 0)

  unfoldable pub canonical_bytes : BlockHeader → Bytes
  canonical_bytes h =
      to_be_bytes 4 block_version
      ++ (to_be_bytes 8 h.number
          ++ (decode_hash_32 h.parent_hash
              ++ (to_be_bytes 8 h.timestamp
                  ++ (to_be_bytes 8 h.difficulty
                      ++ (to_be_bytes 8 h.nonce ++ decode_hash_32 h.tx_root)))))

  unfoldable pub compute_hash : BlockHeader → Text
  unfolding canonical_bytes
  compute_hash h = ext.hex_encode (ext.blake3 (canonical_bytes h))

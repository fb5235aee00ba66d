-- ===== src/Store.antt =====
-- chain/storage.rs: the blocks, the height index and the tip in the key-value store.
-- sled is a parameter: reads, single writes and atomic batches over byte keys, each of which may fail.
pub mod Decimal
pub mod Reads
pub mod Digits
pub mod Laws
use vision_core.Prelude.{
  ℕ, zero, suc, ◌+◌, ◌-◌, ◌/◌, ◌%◌, Option, none, some, List, [], ◌∷◌, ◌++◌, ltb, if◌then◌else◌,
  last?, Result, ok, err, ◌>>=◌, ok_or,
}
use vision_core.Prelude.Text.{Text, text}
use vision_core.Prelude.Bytes.{Bytes}
use vision_core.Types.{Block, hash}
use vision_core.External.{External}
use Decimal.{decimal}

-- An entry of a batch: a key, and the value written or `none` for a removal.
abbrev pub BatchOp : Type 0
BatchOp = Text × Option Bytes

-- The store. A write that fails leaves the store as it was.
pub record Sled (Db : Type 0) : Type 0 where
  -- the entries whose keys have a prefix, those that could be read, in key order
  pub scan_prefix : Db → Text → List (Text × Bytes)
  pub db_get : Db → Text → Result (Option Bytes) Text
  pub db_insert : Db → Text → Bytes → Result Db Text
  pub apply_batch : Db → List BatchOp → Result Db Text

abbrev pub block_key : Text → Text
block_key h = text "block:" ++ h

abbrev pub height_key : ℕ → Text
height_key n = text "height:" ++ decimal n

abbrev pub tip_height_key : Text
tip_height_key = text "meta:tip_height"

abbrev pub tip_hash_key : Text
tip_hash_key = text "meta:tip_hash"

-- `for height in from..=to`, of `count` heights
unfoldable pub remove_heights : ℕ → ℕ → List BatchOp
remove_heights zero from = []
remove_heights (suc count) from = (height_key from, none) ∷ remove_heights count (from + 1)

module _ ⦃ext : External⦄ where
  -- The block, its height and the tip: the batch of `persist_canonical_extension`.
  unfoldable pub extension_batch : Block → List BatchOp
  extension_batch block =
      (block_key (hash block), some (ext.serialize_block block))
      ∷ (height_key block.header.number, some (hash block))
      ∷ (tip_height_key, some (decimal block.header.number))
      ∷ (tip_hash_key, some (hash block))
      ∷ []

  -- The loop over the blocks of `persist_canonical_reorg`.
  unfoldable pub chain_batch : List Block → List BatchOp
  chain_batch [] = []
  chain_batch (block ∷ blocks) =
      (block_key (hash block), some (ext.serialize_block block))
      ∷ (height_key block.header.number, some (hash block))
      ∷ chain_batch blocks

module _ {Db : Type 0} ⦃sled : Sled Db⦄ where
  -- Single writes in turn, up to the first that fails.
  unfoldable pub write_each : Db → List (Text × Bytes) → Db × Result (Unit {0}) Text
  write_each db [] = (db, ok tt)
  write_each db ((k, v) ∷ rest) = elim (sled.db_insert db k v) [
    | ok next ↦ write_each next rest
    | err e ↦ (db, err e)
  ]

module _ {Db : Type 0} ⦃ext : External⦄ ⦃sled : Sled Db⦄ where
  unfoldable pub store_block : Db → Block → Result Db Text
  store_block db block = sled.db_insert db (block_key (hash block)) (ext.serialize_block block)

  unfoldable pub persist_canonical_extension : Db → Block → Result Db Text
  unfolding extension_batch
  persist_canonical_extension db block = sled.apply_batch db (extension_batch block)

  unfoldable pub persist_canonical_reorg : Db → List Block → ℕ → Result Db Text
  unfolding chain_batch remove_heights
  persist_canonical_reorg db canonical_blocks previous_tip_height = do
    tip ← ok_or (last? canonical_blocks) (text "cannot persist empty canonical chain")
    let new_tip_height = tip.header.number
    sled.apply_batch db (
        chain_batch canonical_blocks
        ++ (remove_heights (previous_tip_height - new_tip_height) (new_tip_height + 1)
            ++ (tip_height_key, some (decimal new_tip_height))
              ∷ (tip_hash_key, some (hash tip))
              ∷ []))

  unfoldable pub load_block : Db → Text → Result (Option Block) Text
  load_block db h = do
    stored ← sled.db_get db (block_key h)
    elim stored [
      | none ↦ ok none
      | some bytes ↦ do
        block ← ok_or (ext.deserialize_block bytes) (text "deserialize")
        ok (some block)
    ]

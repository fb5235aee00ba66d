-- ===== src/Store/Laws.antt =====
-- What the store reads back of what it wrote.
use vision_core.Prelude.{
  ◌≡◌, refl, ◌∙◌, Bool, true, Option, some, List, [], ◌∷◌, if◌then◌else◌, ok, arith,
}
use vision_core.Prelude.Text.{Text, text, text_eq, text_eq_refl}
use vision_core.Prelude.Bytes.{Bytes}
use vision_core.Types.{Block, hash}
use vision_core.External.{External}
use vision_core.Store.{
  Sled, BatchOp, block_key, height_key, tip_height_key, tip_hash_key, extension_batch,
  persist_canonical_extension, load_block,
}
use vision_core.Store.Decimal.{decimal}
use vision_core.Store.Digits.{scan_utf8-AreDigits, decimal-AreDigits}
use vision_core.Store.Reads.{scan_utf8, from_utf8, load_text, load_height_index, load_meta}

-- What a batch leaves under a key: the last entry for it, or what was there.
abbrev pub after_batch : List BatchOp → Text → Option Bytes → Option Bytes
after_batch [] key before = before
after_batch ((k, v) ∷ ops) key before = after_batch ops key (if text_eq k key then v else before)

-- The documented behaviour of sled: a read sees the last write of its key.
pub record IsStore {Db : Type 0} (sled : Sled Db) : Type 0 where
  pub get_inserted :
      (db next : Db) (k j : Text) (v : Bytes) (before : Option Bytes)
      → sled.db_insert db k v ≡ ok next
      → sled.db_get db j ≡ ok before
      → sled.db_get next j ≡ ok (if text_eq k j then some v else before)
  pub get_batched :
      (db next : Db) (ops : List BatchOp) (j : Text) (before : Option Bytes)
      → sled.apply_batch db ops ≡ ok next
      → sled.db_get db j ≡ ok before
      → sled.db_get next j ≡ ok (after_batch ops j before)

abbrev pub is_utf8 : Bytes → Bool
is_utf8 bytes = scan_utf8 (record { remaining = 0; low = 0; high = 0 }) bytes

module _ {Db : Type 0} ⦃ext : External⦄ ⦃sled : Sled Db⦄ (law : IsStore sled) where
  batched :
      (db next : Db) (b : Block) (j : Text) (before : Option Bytes)
      → persist_canonical_extension db b ≡ ok next
      → sled.db_get db j ≡ ok before
      → sled.db_get next j ≡ ok (after_batch (extension_batch b) j before)
  unfolding persist_canonical_extension
  batched db next b j before p e = law.get_batched db next (extension_batch b) j before p e

  load_text-ok :
      (db : Db) (key value : Text)
      → is_utf8 value ≡ true
      → sled.db_get db key ≡ ok (some value)
      → load_text db key ≡ ok (some value)
  unfolding load_text from_utf8
  load_text-ok db key value u e = ground (arith, u, e)

  load_block-ok :
      (db : Db) (b : Block)
      → ext.deserialize_block (ext.serialize_block b) ≡ some b
      → sled.db_get db (block_key (hash b)) ≡ ok (some (ext.serialize_block b))
      → load_block db (hash b) ≡ ok (some b)
  unfolding load_block
  load_block-ok db b d e = ground (arith, d, e)

  -- After a canonical extension is written, the store gives back the block under its hash, the hash
  -- under its height, and the tip's hash and height; for a store that reads its last writes, a block
  -- that bincode gives back, and a hash that is UTF-8.
  pub persist-load :
      (db next : Db) (b : Block) (at_block at_height at_tip_height at_tip_hash : Option Bytes)
      → ext.deserialize_block (ext.serialize_block b) ≡ some b
      → is_utf8 (hash b) ≡ true
      → sled.db_get db (block_key (hash b)) ≡ ok at_block
      → sled.db_get db (height_key b.header.number) ≡ ok at_height
      → sled.db_get db tip_height_key ≡ ok at_tip_height
      → sled.db_get db tip_hash_key ≡ ok at_tip_hash
      → persist_canonical_extension db b ≡ ok next
      → (load_block next (hash b) ≡ ok (some b))
        × (load_height_index next b.header.number ≡ ok (some (hash b)))
        × (load_meta next (text "tip_height") ≡ ok (some (decimal b.header.number)))
        × (load_meta next (text "tip_hash") ≡ ok (some (hash b)))
  unfolding extension_batch text_eq
  persist-load db next b ab ah at ax d u gb gh gt gx p = (
    load_block-ok next b d
        (batched db next b (block_key (hash b)) ab p gb ∙ ground (arith, text_eq_refl (hash b))),
    load_text-ok next (height_key b.header.number) (hash b) u (
        batched db next b (height_key b.header.number) ah p gh
        ∙ ground (arith, text_eq_refl (decimal b.header.number))),
    load_text-ok next tip_height_key (decimal b.header.number)
        (scan_utf8-AreDigits (decimal b.header.number) (decimal-AreDigits b.header.number))
        (batched db next b tip_height_key at p gt ∙ refl),
    load_text-ok next tip_hash_key (hash b) u (batched db next b tip_hash_key ax p gx ∙ refl),
  )

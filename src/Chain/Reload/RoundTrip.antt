-- ===== src/Chain/Reload/RoundTrip.antt =====
-- What a reload reads of the canonical extensions that block acceptance wrote.
use vision_core.Prelude.{ℕ, ◌≡◌, ◌<◌, true, Option, some, ok, arith}
use vision_core.Prelude.Text.{Text, text}
use vision_core.Prelude.Bytes.{Bytes, u64_mod}
use vision_core.Types.{Block, hash}
use vision_core.External.{External}
use vision_core.Store.{
  Sled, block_key, height_key, tip_height_key, tip_hash_key, persist_canonical_extension,
  load_block,
}
use vision_core.Store.Decimal.{decimal}
use vision_core.Store.Digits.{parse_u64-decimal}
use vision_core.Store.Reads.{load_text, load_height_index, load_meta, parse_u64}
use vision_core.Store.Laws.{IsStore, is_utf8, persist-load}
use vision_core.Chain.Reload.{read_height, stored_tip}

module _ {Db : Type 0} ⦃ext : External⦄ ⦃sled : Sled Db⦄ where
  read_height-ok :
      (db : Db) (height : ℕ) (h : Text) (b : Block)
      → load_height_index db height ≡ ok (some h)
      → load_block db h ≡ ok (some b)
      → read_height db height ≡ ok (h, b)
  unfolding read_height
  read_height-ok db height h b e f = rw (e, f)

  load_meta-stored_tip :
      (db : Db) (n : ℕ)
      → load_meta db (text "tip_height") ≡ ok (some (decimal n))
      → parse_u64 (decimal n) ≡ some n
      → stored_tip db ≡ ok (some n)
  unfolding stored_tip load_text
  load_meta-stored_tip db n e p = ground (arith, e, p)

module _ {Db : Type 0} ⦃ext : External⦄ ⦃sled : Sled Db⦄ (law : IsStore sled) where
  -- After a canonical extension is written, a reload finds its height as the tip and its block at
  -- that height; for a store that reads its last writes, a block that bincode gives back, a hash that
  -- is UTF-8 and a height of 64 bits.
  pub persist-read_height :
      (db next : Db) (b : Block) (at_block at_height at_tip_height at_tip_hash : Option Bytes)
      → ext.deserialize_block (ext.serialize_block b) ≡ some b
      → is_utf8 (hash b) ≡ true
      → b.header.number < u64_mod
      → sled.db_get db (block_key (hash b)) ≡ ok at_block
      → sled.db_get db (height_key b.header.number) ≡ ok at_height
      → sled.db_get db tip_height_key ≡ ok at_tip_height
      → sled.db_get db tip_hash_key ≡ ok at_tip_hash
      → persist_canonical_extension db b ≡ ok next
      → (stored_tip next ≡ ok (some b.header.number))
        × (read_height next b.header.number ≡ ok (hash b, b))
  persist-read_height db next b ab ah at ax d u fits gb gh gt gx p =
      let (block, indexed, tip, tip_hash) =
        persist-load law db next b ab ah at ax d u gb gh gt gx p in
      (
        load_meta-stored_tip next b.header.number tip (parse_u64-decimal b.header.number fits),
        read_height-ok next b.header.number (hash b) b indexed block,
      )

-- ===== src/Block/Layout.antt =====
-- The fixed layout of the header bytes: its length, and what it commits to.
use vision_core.Prelude.{
  ℕ, ◌≡◌, ◌<◌, refl, min, ◌++◌, length, take, drop, replicate, unwrap_or, length-append,
  length-take, length-drop, length-replicate, arith,
}
use vision_core.Prelude.Bytes.{Bytes, u64_mod, to_be_bytes}
use vision_core.Prelude.Bytes.Codec.{length-to_be_bytes, append-injective, to_be_bytes-injective}
use vision_core.Prelude.Text.{Text}
use vision_core.Types.{BlockHeader}
use vision_core.External.{External}
use vision_core.Block.{block_version, decode_hash_32, canonical_bytes}

-- The numbers of a header are of 64 bits.
pub record IsHeader (h : BlockHeader) : Type 0 where
  pub number_fits : h.number < u64_mod
  pub timestamp_fits : h.timestamp < u64_mod
  pub difficulty_fits : h.difficulty < u64_mod
  pub nonce_fits : h.nonce < u64_mod

-- The parts of a header that its bytes fix.
pub record Agree ⦃ext : External⦄ (h k : BlockHeader) : Type 0 where
  pub number : h.number ≡ k.number
  pub parent : decode_hash_32 h.parent_hash ≡ decode_hash_32 k.parent_hash
  pub timestamp : h.timestamp ≡ k.timestamp
  pub difficulty : h.difficulty ≡ k.difficulty
  pub nonce : h.nonce ≡ k.nonce
  pub tx_root : decode_hash_32 h.tx_root ≡ decode_hash_32 k.tx_root

module _ ⦃ext : External⦄ where
  length-padded :
      (raw : Bytes)
      → length (take (min (length raw) 32) raw ++ drop (min (length raw) 32) (replicate 32 0)) ≡ 32
  length-padded raw = omega (
    arith,
    length-append (take (min (length raw) 32) raw) (drop (min (length raw) 32) (replicate 32 0)),
    length-take (min (length raw) 32) raw,
    length-drop {A = ℕ} (min (length raw) 32) (replicate 32 0),
    length-replicate {A = ℕ} 32 0,
  )

  pub length-decode_hash_32 : (t : Text) → length (decode_hash_32 t) ≡ 32
  unfolding decode_hash_32
  length-decode_hash_32 t = length-padded (unwrap_or (ext.hex_decode t) (replicate 32 0))

  -- The header bytes are 100 long, whatever the hashes hold.
  pub length-canonical_bytes : (h : BlockHeader) → length (canonical_bytes h) ≡ 100
  unfolding canonical_bytes
  length-canonical_bytes h = simp (length-append, length-to_be_bytes, length-decode_hash_32) refl

  -- Two headers of 64-bit numbers with the same bytes agree on the number, the timestamp, the
  -- difficulty, the nonce and the 32 decoded bytes of the parent hash and the transaction root.
  pub canonical_bytes-injective :
      (h k : BlockHeader)
      → IsHeader h
      → IsHeader k
      → canonical_bytes h ≡ canonical_bytes k
      → Agree h k
  unfolding canonical_bytes
  canonical_bytes-injective h k fh fk e =
      let (_, e1) =
        append-injective (to_be_bytes 4 block_version) (to_be_bytes 4 block_version) _ _ refl e in
      let (n, e2) =
        append-injective _ _ _ _
          (omega (arith, length-to_be_bytes 8 h.number, length-to_be_bytes 8 k.number)) e1 in
      let (p, e3) =
        append-injective _ _ _ _
          (omega (arith, length-decode_hash_32 h.parent_hash, length-decode_hash_32 k.parent_hash))
          e2 in
      let (t, e4) =
        append-injective _ _ _ _
          (omega (arith, length-to_be_bytes 8 h.timestamp, length-to_be_bytes 8 k.timestamp)) e3 in
      let (d, e5) =
        append-injective _ _ _ _
          (omega (arith, length-to_be_bytes 8 h.difficulty, length-to_be_bytes 8 k.difficulty))
          e4 in
      let (c, r) =
        append-injective _ _ _ _
          (omega (arith, length-to_be_bytes 8 h.nonce, length-to_be_bytes 8 k.nonce)) e5 in
      record {
        number = to_be_bytes-injective 8 h.number k.number fh.number_fits fk.number_fits n;
        parent = p;
        timestamp =
            to_be_bytes-injective 8 h.timestamp k.timestamp fh.timestamp_fits fk.timestamp_fits t;
        difficulty =
            to_be_bytes-injective 8 h.difficulty k.difficulty fh.difficulty_fits fk.difficulty_fits
              d;
        nonce = to_be_bytes-injective 8 h.nonce k.nonce fh.nonce_fits fk.nonce_fits c;
        tx_root = r;
      }

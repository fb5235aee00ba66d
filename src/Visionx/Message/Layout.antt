-- ===== src/Visionx/Message/Layout.antt =====
-- The bytes determine the fields that they are made of, and hold the nonce at its offset.
use vision_core.Prelude.{
  ℕ, ◌<◌, ◌≡◌, refl, sym, subst, ensure, ok_or, ◌>>◌, take-append, drop-append, ltb-false, ◌∙◌, ap,
  false, ◌++◌, length, length-append, ltb, ok, bind-ok, then-ok, ensure-ok, ok-injective, some,
  arith, ==_iff, ◌==◌,
}
use mathlib.Core.List.{append_assoc}
use vision_core.Prelude.Text.{Text, text}
use vision_core.Prelude.Bytes.{Bytes, to_le_bytes, to_be_bytes, u64_mod}
use vision_core.Prelude.Bytes.Codec.{
  to_le_bytes-injective, to_be_bytes-injective, length-to_le_bytes, length-to_be_bytes,
  append-injective, from_be-to_be,
}
use vision_core.Types.{BlockHeader}
use vision_core.External.{External}
use vision_core.Block.Layout.{IsHeader}
use vision_core.Visionx.Message.{
  bad_length, invalid_hex, strip_0x, decode_hash_32, historical_vpow_message_bytes, numbers, ending,
  vpow_magic, vpow_version, nonce_from_header, historical_vpow_nonce_offset,
}

-- Two headers agree in what the message is made of; the state root is not part of it.
pub record SameWork ⦃ext : External⦄ (h k : BlockHeader) : Type 0 where
  pub parent :
      decode_hash_32 (text "parent_hash") h.parent_hash
      ≡ decode_hash_32 (text "parent_hash") k.parent_hash
  pub tx_root :
      decode_hash_32 (text "tx_root") h.tx_root ≡ decode_hash_32 (text "tx_root") k.tx_root
  pub number : h.number ≡ k.number
  pub timestamp : h.timestamp ≡ k.timestamp
  pub difficulty : h.difficulty ≡ k.difficulty
  pub nonce : h.nonce ≡ k.nonce
  pub miner : h.miner ≡ k.miner

same_le : (w a b : ℕ) → length (to_le_bytes w a) ≡ length (to_le_bytes w b)
same_le w a b = length-to_le_bytes w a ∙ sym (length-to_le_bytes w b)

length-numbers : (h : BlockHeader) → length (numbers h) ≡ 32
length-numbers h = simp (length-append, length-to_le_bytes, length-to_be_bytes) refl

numbers-injective :
    (h k : BlockHeader)
    → IsHeader h
    → IsHeader k
    → numbers h ≡ numbers k
    → (h.number ≡ k.number)
      × (h.timestamp ≡ k.timestamp)
      × (h.difficulty ≡ k.difficulty)
      × (h.nonce ≡ k.nonce)
numbers-injective h k wh wk e =
    let (n, e1) = append-injective _ _ _ _ (same_le 8 h.number k.number) e in
    let (t, e2) = append-injective _ _ _ _ (same_le 8 h.timestamp k.timestamp) e1 in
    let (d, e3) = append-injective _ _ _ _ (same_le 8 h.difficulty k.difficulty) e2 in
    (
      to_le_bytes-injective 8 h.number k.number (omega (arith, wh.number_fits))
          (omega (arith, wk.number_fits)) n,
      to_le_bytes-injective 8 h.timestamp k.timestamp (omega (arith, wh.timestamp_fits))
          (omega (arith, wk.timestamp_fits)) t,
      to_le_bytes-injective 8 h.difficulty k.difficulty (omega (arith, wh.difficulty_fits))
          (omega (arith, wk.difficulty_fits)) d,
      to_be_bytes-injective 8 h.nonce k.nonce (omega (arith, wh.nonce_fits))
          (omega (arith, wk.nonce_fits)) e3,
    )

module _ ⦃ext : External⦄ where
  decode_hash_32-length :
      (label s : Text) (bytes : Bytes) → decode_hash_32 label s ≡ ok bytes → length bytes ≡ 32
  unfolding decode_hash_32
  decode_hash_32-length label s bytes e =
      let (raw, p, rest) =
        bind-ok (ok_or (ext.hex_decode (strip_0x s)) (invalid_hex label))
          (λ b. ensure (length b == 32) (bad_length label (length b)) >> ok b) bytes e in
      let (fits, same) =
        then-ok (ensure (length raw == 32) (bad_length label (length raw))) (ok raw) bytes rest in
      let thirty_two = (==_iff (length raw) 32).0 (ensure-ok _ _ tt fits) in
      subst (λ b. length b ≡ 32) (ok-injective same) thirty_two

  -- What a message that was made is made of.
  abbrev frame : BlockHeader → Bytes → Bytes → Bytes
  frame h parent tx_root =
      vpow_magic
      ++ (to_le_bytes 4 vpow_version ++ (parent ++ (numbers h ++ ending tx_root h.miner)))

  message-parts :
      (h : BlockHeader) (m : Bytes)
      → historical_vpow_message_bytes h ≡ ok m
      → (parent : Bytes) × (tx_root : Bytes) × (decode_hash_32 (text "parent_hash") h.parent_hash
          ≡ ok parent)
        × (decode_hash_32 (text "tx_root") h.tx_root ≡ ok tx_root)
        × (frame h parent tx_root ≡ m)
  unfolding historical_vpow_message_bytes
  message-parts h m e =
      let (parent, p, rest) = bind-ok (decode_hash_32 (text "parent_hash") h.parent_hash) _ m e in
      let (tx_root, q, made) = bind-ok (decode_hash_32 (text "tx_root") h.tx_root) _ m rest in
      (parent, tx_root, p, q, ok-injective made)

  pub historical_vpow_message_bytes-injective :
      (h k : BlockHeader) (m : Bytes)
      → IsHeader h
      → IsHeader k
      → historical_vpow_message_bytes h ≡ ok m
      → historical_vpow_message_bytes k ≡ ok m
      → SameWork h k
  historical_vpow_message_bytes-injective h k m wh wk e f =
      let (ph, th, dph, dth, mh) = message-parts h m e in
      let (pk, tk, dpk, dtk, mk) = message-parts k m f in
      let lph = decode_hash_32-length _ h.parent_hash ph dph in
      let lpk = decode_hash_32-length _ k.parent_hash pk dpk in
      let lth = decode_hash_32-length _ h.tx_root th dth in
      let ltk = decode_hash_32-length _ k.tx_root tk dtk in
      let (_, e1) = append-injective vpow_magic vpow_magic _ _ refl (mh ∙ sym mk) in
      let (_, e2) = append-injective (to_le_bytes 4 1) (to_le_bytes 4 1) _ _ refl e1 in
      let (same_parent, e3) = append-injective ph pk _ _ (lph ∙ sym lpk) e2 in
      let (same_numbers, e4) =
        append-injective (numbers h) (numbers k) _ _ (length-numbers h ∙ sym (length-numbers k))
          e3 in
      let (same_root, e5) = append-injective th tk _ _ (lth ∙ sym ltk) e4 in
      let (_, same_miner) =
        append-injective _ _ _ _ (same_le 4 (length h.miner) (length k.miner)) e5 in
      let (n, t, d, nonce) = numbers-injective h k wh wk same_numbers in
      record {
        parent = dph ∙ ap ok same_parent ∙ sym dpk;
        tx_root = dth ∙ ap ok same_root ∙ sym dtk;
        number = n;
        timestamp = t;
        difficulty = d;
        nonce = nonce;
        miner = same_miner;
      }

  -- A word behind 64 bytes is what is read at the offset.
  nonce_from_header-append :
      (front rest : Bytes) (nonce : ℕ)
      → length front ≡ 64
      → nonce < u64_mod
      → nonce_from_header (front ++ (to_be_bytes 8 nonce ++ rest)) historical_vpow_nonce_offset
        ≡ some nonce
  unfolding nonce_from_header
  nonce_from_header-append front rest nonce len fits =
      let word = to_be_bytes 8 nonce in
      let long : ltb (length (front ++ (word ++ rest))) 72 ≡ false = ltb-false _ 72 (
        omega (
          arith,
          length-append front (word ++ rest),
          length-append word rest,
          length-to_be_bytes 8 nonce,
          len,
        )) in
      let at_offset = drop-append 64 front (word ++ rest) len in
      let eight = take-append 8 word rest (length-to_be_bytes 8 nonce) in
      let value = from_be-to_be 8 nonce (omega (arith, fits)) in
      rw (long, at_offset, eight) (ap some value)

  -- The nonce of a header is read back from its message at the offset of the nonce.
  pub nonce_from_header-message :
      (h : BlockHeader) (m : Bytes)
      → h.nonce < u64_mod
      → historical_vpow_message_bytes h ≡ ok m
      → nonce_from_header m historical_vpow_nonce_offset ≡ some h.nonce
  nonce_from_header-message h m fits e =
      let (parent, tx_root, dp, dt, made) = message-parts h m e in
      let len = decode_hash_32-length _ h.parent_hash parent dp in
      let front : Bytes =
        vpow_magic
        ++ (to_le_bytes 4 vpow_version
            ++ (parent
                ++ (to_le_bytes 8 h.number
                    ++ (to_le_bytes 8 h.timestamp ++ to_le_bytes 8 h.difficulty)))) in
      let long : length front ≡ 64 = simp (length-append, length-to_le_bytes, len) refl in
      let split : frame h parent tx_root
          ≡ front ++ (to_be_bytes 8 h.nonce ++ ending tx_root h.miner) =
        simp append_assoc refl in
      subst (λ b. nonce_from_header b historical_vpow_nonce_offset ≡ some h.nonce)
        (sym split ∙ made)
        (nonce_from_header-append front (ending tx_root h.miner) h.nonce long fits)

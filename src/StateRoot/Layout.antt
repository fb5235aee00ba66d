-- ===== src/StateRoot/Layout.antt =====
-- The layout of the state vector (chain/state_root.rs).
use vision_core.Prelude.{
  ℕ, ◌+◌, ◌*◌, ◌≡◌, [], ◌∷◌, ◌++◌, length, length-append, arith, ok, Result-cases, inl, inr,
}
use vision_core.Prelude.Text.{Text}
use vision_core.Prelude.Bytes.{Bytes, to_le_bytes}
use vision_core.Prelude.Bytes.Codec.{length-to_le_bytes}
use vision_core.Prelude.Map.{Map, IsSorted}
use vision_core.External.{External}
use vision_core.StateRoot.{
  nonzero, canonical_state_vector, append_balances, append_nonces, append_entries,
  decode_account_key, encode_header,
}
use vision_core.StateRoot.Entries.{sort-IsSorted, nonzero-IsSorted}

module _ ⦃ext : External⦄ where
  pub length-decode_account_key :
      (key : Text) (bytes : Bytes) → decode_account_key key ≡ ok bytes → length bytes ≡ 32
  unfolding decode_account_key
  length-decode_account_key key bytes h = ground arith

  pub length-append_entries :
      (width : ℕ) (m : Map ℕ) (out v : Bytes)
      → append_entries width m out ≡ ok v
      → length v ≡ length out + length m * (32 + width)
  unfolding append_entries
  length-append_entries width [] out v h = ground arith
  length-append_entries width ((key, value) ∷ m) out v h =
      elim (Result-cases (decode_account_key key)) [
        | inl (decoded, e) ↦ omega (
          arith,
          length-append_entries width m (out ++ (decoded ++ to_le_bytes width value)) v
              (ground arith),
          length-append out (decoded ++ to_le_bytes width value),
          length-append decoded (to_le_bytes width value),
          length-to_le_bytes width value,
          length-decode_account_key key decoded e,
        )
        | inr (x, e) ↦ absurd (ground arith)
      ]

  -- The two stages of the state vector.
  pub canonical_state_vector-stages :
      (balances nonces : Map ℕ) (v : Bytes)
      → IsSorted balances
      → IsSorted nonces
      → canonical_state_vector balances nonces ≡ ok v
      → (out : Bytes) × (append_entries 16
            (nonzero balances)
            (encode_header ++ to_le_bytes 8 (length (nonzero balances)))
          ≡ ok out)
        × (append_entries 8 (nonzero nonces) (out ++ to_le_bytes 8 (length (nonzero nonces)))
            ≡ ok v)
  unfolding canonical_state_vector append_balances append_nonces
  canonical_state_vector-stages balances nonces v sb sn h =
      let eb = sort-IsSorted (nonzero balances) (nonzero-IsSorted balances sb) in
      let en = sort-IsSorted (nonzero nonces) (nonzero-IsSorted nonces sn) in
      let h' = rw (eb, en) at h in
      elim (Result-cases (
        append_entries 16 (nonzero balances)
          (encode_header ++ to_le_bytes 8 (length (nonzero balances))))) [
            | inl (out, e) ↦ (out, e, ground (arith, h'))
            | inr (x, e) ↦ absurd (ground (arith, h'))
          ]

  -- A state vector that is built has 10 bytes of header, two 8-byte counts, 48 bytes for each account
  -- with a balance and 40 for each account with a nonce.
  pub length-canonical_state_vector :
      (balances nonces : Map ℕ) (v : Bytes)
      → IsSorted balances
      → IsSorted nonces
      → canonical_state_vector balances nonces ≡ ok v
      → length v ≡ 26 + 48 * length (nonzero balances) + 40 * length (nonzero nonces)
  unfolding encode_header to_le_bytes
  length-canonical_state_vector balances nonces v sb sn h =
      let (out, eb, en) = canonical_state_vector-stages balances nonces v sb sn h in
      omega (
        arith,
        length-append_entries 16 (nonzero balances) _ out eb,
        length-append_entries 8 (nonzero nonces) _ v en,
        length-append encode_header (to_le_bytes 8 (length (nonzero balances))),
        length-append out (to_le_bytes 8 (length (nonzero nonces))),
        length-to_le_bytes 8 (length (nonzero balances)),
        length-to_le_bytes 8 (length (nonzero nonces)),
      )

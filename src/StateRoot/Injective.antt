-- ===== src/StateRoot/Injective.antt =====
-- The state vector determines the accounts (chain/state_root.rs).
use vision_core.Prelude.{
  ℕ, ◌^◌, ◌<◌, ◌≡◌, refl, [], ◌∷◌, ◌++◌, length, All, all, length-append, arith, ok, some, false,
  true, Result-cases, inl, inr, ◌∙◌,
}
use vision_core.Prelude.Text.{Text}
use vision_core.Prelude.Bytes.{Bytes, to_le_bytes}
use vision_core.Prelude.Bytes.Codec.{length-to_le_bytes, append-injective, to_le_bytes-injective}
use vision_core.Prelude.Map.{Map}
use mathlib.Core.List.{append_assoc, append-nil}
use vision_core.External.{External}
use vision_core.Transaction.{is_lowercase_hex, is_lower_hex_byte}
use vision_core.StateRoot.{
  KeyScan, note_byte, scan_key, validate_account_key, append_entries, decode_account_key,
}
use vision_core.StateRoot.Layout.{length-decode_account_key}

scan_key_clean :
    (flags : KeyScan) (s : Text)
    → (scan_key flags s).saw_uppercase ≡ false
    → (scan_key flags s).saw_non_lower_hex ≡ false
    → (flags.saw_uppercase ≡ false)
      × (flags.saw_non_lower_hex ≡ false)
      × (all is_lower_hex_byte s ≡ true)
unfolding scan_key
scan_key_clean flags [] u n = (u, n, refl)
scan_key_clean flags (b ∷ s) u n = ground (arith, scan_key_clean (note_byte flags b) s u n)

-- A key that the validation passes is lowercase hex.
validate_account_key-lowercase :
    (key : Text) → validate_account_key key ≡ ok tt → is_lowercase_hex key ≡ true
unfolding validate_account_key is_lowercase_hex
validate_account_key-lowercase key h =
    ground (arith, scan_key_clean (record { saw_uppercase = false; saw_non_lower_hex = false }) key)

-- Values that fit the width at which they are written.
abbrev pub Fit : ℕ → Map ℕ → Type 0
Fit width = All (λ e. e.1 < 256 ^ width)

module _ ⦃ext : External⦄ where
  -- The hex crate decodes no two lowercase texts to the same bytes.
  abbrev pub HexDecodeInjective : Type 0
  HexDecodeInjective =
      (s t : Text) (bytes : Bytes)
      → is_lowercase_hex s ≡ true
      → is_lowercase_hex t ≡ true
      → ext.hex_decode s ≡ some bytes
      → ext.hex_decode t ≡ some bytes
      → s ≡ t

  decode_account_key-injective :
      (j k : Text) (bytes : Bytes)
      → HexDecodeInjective
      → decode_account_key j ≡ ok bytes
      → decode_account_key k ≡ ok bytes
      → j ≡ k
  unfolding decode_account_key
  decode_account_key-injective j k bytes inj ej ek =
      ground
        (arith, inj j k bytes, validate_account_key-lowercase j, validate_account_key-lowercase k)

  pub append_entries-prefix :
      (width : ℕ) (m : Map ℕ) (out v : Bytes)
      → append_entries width m out ≡ ok v
      → (rest : Bytes) × (v ≡ out ++ rest)
  unfolding append_entries
  append_entries-prefix width [] out v h = ([], ground (arith, append-nil out))
  append_entries-prefix width ((key, value) ∷ m) out v h =
      elim (Result-cases (decode_account_key key)) [
        | inl (decoded, e) ↦
            let (rest, r) =
              append_entries-prefix width m (out ++ (decoded ++ to_le_bytes width value)) v
                (ground arith) in
            (
              (decoded ++ to_le_bytes width value) ++ rest,
              r ∙ append_assoc out (decoded ++ to_le_bytes width value) rest,
            )
        | inr (x, e) ↦ absurd (ground arith)
      ]

  pub append_entries-injective :
      (width : ℕ) (m n : Map ℕ) (out out' v : Bytes)
      → HexDecodeInjective
      → length out ≡ length out'
      → length m ≡ length n
      → Fit width m
      → Fit width n
      → append_entries width m out ≡ ok v
      → append_entries width n out' ≡ ok v
      → (out ≡ out') × (m ≡ n)
  unfolding append_entries
  append_entries-injective width [] [] out out' v inj eo el fm fn hm hn = (ground arith, refl)
  append_entries-injective width [] (f ∷ n) out out' v inj eo el fm fn hm hn = absurd (omega arith)
  append_entries-injective width (e ∷ m) [] out out' v inj eo el fm fn hm hn = absurd (omega arith)
  append_entries-injective width ((j, x) ∷ m) ((k, y) ∷ n) out out' v inj eo el fm fn hm hn =
      elim (Result-cases (decode_account_key j)) [
        | inl (dj, ej) ↦ elim (Result-cases (decode_account_key k)) [
          | inl (dk, ek) ↦
              let lj = length-decode_account_key j dj ej in
              let lk = length-decode_account_key k dk ek in
              let lx = length-to_le_bytes width x in
              let ly = length-to_le_bytes width y in
              let (eq_out, eq_rest) =
                append_entries-injective width m n (out ++ (dj ++ to_le_bytes width x))
                  (out' ++ (dk ++ to_le_bytes width y)) v inj
                  (omega (
                    arith,
                    eo,
                    length-append out (dj ++ to_le_bytes width x),
                    length-append out' (dk ++ to_le_bytes width y),
                    length-append dj (to_le_bytes width x),
                    length-append dk (to_le_bytes width y),
                  ))
                  (omega arith) fm.1 fn.1 (ground arith) (ground arith) in
              let (same_out, same_entry) = append-injective out out' _ _ eo eq_out in
              let (same_key, same_value) = append-injective dj dk _ _ (omega arith) same_entry in
              let keys_equal : j ≡ k =
                decode_account_key-injective j k dk inj (ground (arith, same_key)) ek in
              let values_equal : x ≡ y = to_le_bytes-injective width x y fm.0 fn.0 same_value in
              (same_out, ground (arith, keys_equal, values_equal, eq_rest))
          | inr (_, ek) ↦ absurd (ground arith)
        ]
        | inr (_, ej) ↦ absurd (ground arith)
      ]

-- ===== src/StateRoot/Accounts.antt =====
-- The accounts that a state vector stands for (chain/state_root.rs).
use vision_core.Prelude.{
  ℕ, subst, All-keep_if, length-keep_if, ◌+◌, ◌*◌, ◌<◌, ◌≡◌, refl, ◌++◌, length, length-append,
  arith, ok, ap, sym, ◌∙◌,
}
use vision_core.Prelude.Text.{Text}
use vision_core.Prelude.Bytes.{Bytes, to_le_bytes, u64_mod}
use vision_core.Prelude.Bytes.Codec.{length-to_le_bytes, append-injective, to_le_bytes-injective}
use vision_core.Prelude.Map.{Map, IsSorted}
use mathlib.Core.List.{append_assoc}
use vision_core.External.{External}
use vision_core.StateRoot.{nonzero, canonical_state_vector, append_entries, encode_header}
use vision_core.StateRoot.Entries.{value_of, get-nonzero}
use vision_core.StateRoot.Layout.{canonical_state_vector-stages, length-append_entries}
use vision_core.StateRoot.Injective.{
  HexDecodeInjective, Fit, append_entries-prefix, append_entries-injective,
}

module _ ⦃ext : External⦄ where
  abbrev IsWritten : Map ℕ → Map ℕ → Bytes → Bytes → Type 0
  IsWritten balances nonces out v =
      (append_entries 16 balances (encode_header ++ to_le_bytes 8 (length balances)) ≡ ok out)
      × (append_entries 8 nonces (out ++ to_le_bytes 8 (length nonces)) ≡ ok v)

  length-written :
      (balances nonces : Map ℕ) (out v : Bytes)
      → IsWritten balances nonces out v
      → (length out ≡ length encode_header + 8 + length balances * 48)
        × (length v ≡ length out + 8 + length nonces * 40)
  length-written balances nonces out v w = (
    omega (
      arith,
      length-append_entries 16 balances _ out w.0,
      length-append encode_header (to_le_bytes 8 (length balances)),
      length-to_le_bytes 8 (length balances),
    ),
    omega (
      arith,
      length-append_entries 8 nonces _ v w.1,
      length-append out (to_le_bytes 8 (length nonces)),
      length-to_le_bytes 8 (length nonces),
    ),
  )

  same_balances_count :
      (m m' n n' : Map ℕ) (out out' v : Bytes)
      → length m < u64_mod
      → length m' < u64_mod
      → IsWritten m n out v
      → IsWritten m' n' out' v
      → length m ≡ length m'
  same_balances_count m m' n n' out out' v hm hm' w w' =
      let (r, er) = append_entries-prefix 16 m _ out w.0 in
      let (r', er') = append_entries-prefix 16 m' _ out' w'.0 in
      let (t, et) = append_entries-prefix 8 n _ v w.1 in
      let (t', et') = append_entries-prefix 8 n' _ v w'.1 in
      let c : Bytes = to_le_bytes 8 (length n) in
      let c' : Bytes = to_le_bytes 8 (length n') in
      let b : Bytes = to_le_bytes 8 (length m) in
      let b' : Bytes = to_le_bytes 8 (length m') in
      let whole : encode_header ++ (b ++ (r ++ (c ++ t)))
          ≡ encode_header ++ (b' ++ (r' ++ (c' ++ t'))) =
        split encode_header b r c t out v er et
        ∙ sym (split encode_header b' r' c' t' out' v er' et') in
      let (_, rest) = append-injective encode_header encode_header _ _ refl whole in
      to_le_bytes-injective 8 (length m) (length m') hm hm'
        (append-injective b b' _ _
          (length-to_le_bytes 8 (length m) ∙ sym (length-to_le_bytes 8 (length m'))) rest).0
    where
      split :
          (hd b r c t out v : Bytes)
          → out ≡ (hd ++ b) ++ r
          → v ≡ (out ++ c) ++ t
          → hd ++ (b ++ (r ++ (c ++ t))) ≡ v
      split hd b r c t out v eo ev = rw (ev, eo) (simp append_assoc)

  -- Entries without zeros that are written as the same bytes are the same entries.
  written-injective :
      (m m' n n' : Map ℕ) (out out' v : Bytes)
      → HexDecodeInjective
      → Fit 16 m
      → Fit 16 m'
      → Fit 8 n
      → Fit 8 n'
      → length m < u64_mod
      → length m' < u64_mod
      → IsWritten m n out v
      → IsWritten m' n' out' v
      → (m ≡ m') × (n ≡ n')
  written-injective m m' n n' out out' v inj fm fm' fn fn' hm hm' w w' =
      let count = same_balances_count m m' n n' out out' v hm hm' w w' in
      let l = length-written m n out v w in
      let l' = length-written m' n' out' v w' in
      let (eo, en) =
        append_entries-injective 8 n n' (out ++ to_le_bytes 8 (length n))
          (out' ++ to_le_bytes 8 (length n')) v inj
          (omega (
            arith,
            length-append out (to_le_bytes 8 (length n)),
            length-append out' (to_le_bytes 8 (length n')),
            length-to_le_bytes 8 (length n),
            length-to_le_bytes 8 (length n'),
          ))
          (omega arith) fn fn' w.1 w'.1 in
      let (same_out, _) = append-injective out out' _ _ (omega arith) eo in
      let start : Bytes = encode_header ++ to_le_bytes 8 (length m) in
      let start' : Bytes = encode_header ++ to_le_bytes 8 (length m') in
      let written' = subst (λ o. append_entries 16 m' start' ≡ ok o) (sym same_out) w'.0 in
      let (_, em) =
        append_entries-injective 16 m m' start start' out inj
          (omega (
            arith,
            length-append encode_header (to_le_bytes 8 (length m)),
            length-append encode_header (to_le_bytes 8 (length m')),
            length-to_le_bytes 8 (length m),
            length-to_le_bytes 8 (length m'),
          ))
          count fm fm' w.0 written' in
      (em, en)

  -- Two maps as the state vector reads them: in key order, their values within the width at which they
  -- are written, and fewer than 2^64 entries.
  pub record IsWritable (balances nonces : Map ℕ) : Type 0 where
    pub balances_sorted : IsSorted balances
    pub nonces_sorted : IsSorted nonces
    pub balances_fit : Fit 16 balances
    pub nonces_fit : Fit 8 nonces
    pub balances_count : length balances < u64_mod
    pub nonces_count : length nonces < u64_mod

  -- The state vector determines the accounts: two states that are written as the same bytes, their maps
  -- in key order, with values of 128 and 64 bits and fewer than 2^64 entries, hold the same balance and
  -- the same nonce at every address, if hex decoding is injective on lowercase text.
  pub canonical_state_vector-injective :
      (balances balances' nonces nonces' : Map ℕ) (v : Bytes)
      → HexDecodeInjective
      → IsWritable balances nonces
      → IsWritable balances' nonces'
      → canonical_state_vector balances nonces ≡ ok v
      → canonical_state_vector balances' nonces' ≡ ok v
      → (a : Text)
      → (value_of a balances ≡ value_of a balances') × (value_of a nonces ≡ value_of a nonces')
  canonical_state_vector-injective b b' n n' v inj r r' h h' a =
      let (out, hb, hn) = canonical_state_vector-stages b n v r.balances_sorted r.nonces_sorted h in
      let (out', hb', hn') =
        canonical_state_vector-stages b' n' v r'.balances_sorted r'.nonces_sorted h' in
      let (eb, en) =
        written-injective (nonzero b) (nonzero b') (nonzero n) (nonzero n') out out' v inj
          (All-keep_if _ _ b r.balances_fit) (All-keep_if _ _ b' r'.balances_fit)
          (All-keep_if _ _ n r.nonces_fit) (All-keep_if _ _ n' r'.nonces_fit)
          (omega (arith, length-keep_if _ b, r.balances_count))
          (omega (arith, length-keep_if _ b', r'.balances_count)) (hb, hn) (hb', hn') in
      (
        sym (get-nonzero a b r.balances_sorted)
            ∙ ap (value_of a) eb
            ∙ get-nonzero a b' r'.balances_sorted,
        sym (get-nonzero a n r.nonces_sorted)
            ∙ ap (value_of a) en
            ∙ get-nonzero a n' r'.nonces_sorted,
      )

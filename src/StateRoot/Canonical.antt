-- ===== src/StateRoot/Canonical.antt =====
-- The state root is a function of the accounts alone (chain/state_root.rs).
use Prim.Native.Nat.Ordering.{lt}
use vision_core.Prelude.{ℕ, ◌≡◌, ◌≢◌, refl, [], ◌∷◌, arith, sym, ◌∙◌}
use vision_core.Prelude.Text.{Text, cmp, lt_of_gt, eq_of_cmp, text_eq_iff}
use vision_core.Prelude.Map.{Map, IsSorted}
use vision_core.Prelude.Map.Laws.{get-After, After-trans}
use vision_core.External.{External}
use vision_core.StateRoot.{
  nonzero, sort_by_key, compute_state_root, canonical_state_vector, append_balances, append_nonces,
}
use vision_core.StateRoot.Entries.{
  value_of, AllNonzero, get-head, get-tail, get-nil, get-nonzero, nonzero-IsSorted,
  nonzero-AllNonzero, sort-IsSorted,
}

abbrev pub SameValues : Map ℕ → Map ℕ → Type 0
SameValues m n = (a : Text) → value_of a m ≡ value_of a n

-- A key that comes before both entries cannot be held by one map alone.
module _ (j k : Text) (v w : ℕ) (m n : Map ℕ) where
  head_not_before :
      IsSorted ((k, w) ∷ n)
      → v ≢ 0
      → value_of j ((j, v) ∷ m) ≡ value_of j ((k, w) ∷ n)
      → cmp j k ≢ lt
  head_not_before sn hv same h =
      ground (arith, get-head j v m, get-After j ((k, w) ∷ n) (h, After-trans j k n h sn.0))

  tail-SameValues :
      j ≡ k
      → IsSorted ((j, v) ∷ m)
      → IsSorted ((k, w) ∷ n)
      → SameValues ((j, v) ∷ m) ((k, w) ∷ n)
      → SameValues m n
  tail-SameValues e sm sn same a = ground (
    arith,
    same a,
    text_eq_iff a j,
    get-tail a j v m,
    get-tail a k w n,
    get-After a m,
    get-After a n,
    sm.0,
    sn.0,
  )

-- Ordered maps without zero entries that hold the same values are equal.
sorted_ext :
    (m n : Map ℕ) → IsSorted m → IsSorted n → AllNonzero m → AllNonzero n → SameValues m n → m ≡ n
sorted_ext [] [] sm sn zm zn same = refl
sorted_ext [] ((k, w) ∷ n) sm sn zm zn same =
    absurd (ground (arith, same k, get-head k w n, zn.0, get-nil k))
sorted_ext ((j, v) ∷ m) [] sm sn zm zn same =
    absurd (ground (arith, same j, get-head j v m, zm.0, get-nil j))
sorted_ext ((j, v) ∷ m) ((k, w) ∷ n) sm sn zm zn same =
    let rest =
      sorted_ext m n sm.1 sn.1 zm.1 zn.1 (tail-SameValues j k v w m n same_key sm sn same) in
    ground (arith, rest, same_key, same j, get-head j v m, get-head k w n)
  where
    same_key : j ≡ k
    same_key = ground (
      arith,
      head_not_before j k v w m n sn zm.0 (same j),
      head_not_before k j w v n m sm zn.0 (sym (same k)),
      lt_of_gt j k,
      eq_of_cmp j k,
    )

-- Ordered maps that hold the same values have the same entries in the state vector.
pub nonzero-SameValues :
    (m n : Map ℕ)
    → IsSorted m
    → IsSorted n
    → SameValues m n
    → sort_by_key (nonzero m) ≡ sort_by_key (nonzero n)
nonzero-SameValues m n sm sn same =
    sort-IsSorted _ (nonzero-IsSorted m sm)
    ∙ sorted_ext (nonzero m) (nonzero n) (nonzero-IsSorted m sm) (nonzero-IsSorted n sn)
        (nonzero-AllNonzero m) (nonzero-AllNonzero n)
        (λ a. get-nonzero a m sm ∙ same a ∙ sym (get-nonzero a n sn))
    ∙ sym (sort-IsSorted _ (nonzero-IsSorted n sn))

module _ ⦃ext : External⦄ where
  -- The state root is a function of the accounts alone: two states whose accounts hold the same
  -- balances and nonces, whatever zero entries either keeps, have the same root or the same error.
  pub compute_state_root-canonical :
      (balances balances' nonces nonces' : Map ℕ)
      → IsSorted balances
      → IsSorted balances'
      → IsSorted nonces
      → IsSorted nonces'
      → SameValues balances balances'
      → SameValues nonces nonces'
      → compute_state_root balances nonces ≡ compute_state_root balances' nonces'
  unfolding compute_state_root canonical_state_vector append_balances append_nonces
  compute_state_root-canonical b b' n n' sb sb' sn sn' vb vn =
      rw (nonzero-SameValues b b' sb sb' vb, nonzero-SameValues n n' sn sn' vn)

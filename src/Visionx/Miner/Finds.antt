-- ===== src/Visionx/Miner/Finds.antt =====
-- What a miner finds is the first solution there is, and the block that it makes has its digest.
use vision_core.Prelude.{
  ℕ, zero, suc, ◌+◌, ◌≤◌, ◌<◌, ◌≡◌, refl, ◌∙◌, sym, ap, true, false, some, ok, Bool-cases,
  Result-cases, inl, inr, arith, bind-ok, map_err-ok, ok-injective, map_err, ◌==◌, ==_iff, subst,
}
use vision_core.Prelude.Text.{text}
use vision_core.Prelude.Bytes.{Bytes}
use vision_core.Types.{BlockHeader}
use vision_core.External.{External}
use vision_core.Visionx.Params.{VisionXParams}
use vision_core.Visionx.Cache.{same_params}
use vision_core.Visionx.Message.{decode_hash_32, historical_vpow_message_bytes_with_nonce_zero}
use vision_core.Visionx.Digest.Same.{fresh_digest, fresh_block_digest}
use vision_core.Visionx.Miner.{
  digest, PowJob, PowSolution, from_historical_header, hash_for_nonce, solution_for_nonce,
  validate_solution, mine_loop, mine,
}

-- A nonce that yields no valid solution, though it has a digest.
abbrev pub Misses : PowJob → ℕ → Type 0
Misses job nonce =
    (candidate : PowSolution) × (solution_for_nonce job nonce ≡ ok candidate)
    × (validate_solution job candidate ≡ false)

-- The first of the nonces from one on that yields a valid solution.
pub record IsFirst (job : PowJob) (from : ℕ) (limit : ℕ) (s : PowSolution) : Type 0 where
  pub valid : validate_solution job s ≡ true
  pub tried : solution_for_nonce job s.nonce ≡ ok s
  pub bounded : s.nonce < limit
  pub first : (nonce : ℕ) → from ≤ nonce → nonce < s.nonce → Misses job nonce

solution_for_nonce-nonce :
    (job : PowJob) (nonce : ℕ) (s : PowSolution)
    → solution_for_nonce job nonce ≡ ok s
    → s.nonce ≡ nonce
unfolding solution_for_nonce
solution_for_nonce-nonce job nonce s e =
    let (found, p, made) =
      bind-ok (hash_for_nonce job nonce) (λ found. ok (record { nonce = nonce; digest = found })) s
        e in
    ap (λ (x : PowSolution). x.nonce) (sym (ok-injective made))

above : (a n : ℕ) → a ≤ n → (n == a) ≡ false → a + 1 ≤ n
above a n lo later = ground arith

mine_loop-IsFirst :
    (job : PowJob) (count nonce : ℕ) (s : PowSolution)
    → mine_loop job count nonce ≡ some s
    → IsFirst job nonce (nonce + count) s
unfolding mine_loop
mine_loop-IsFirst job zero nonce s e = cc
mine_loop-IsFirst job (suc count) nonce s e = elim (Result-cases (solution_for_nonce job nonce)) [
  | inr (x, r) ↦ absurd (ground (arith, e, r))
  | inl (candidate, r) ↦ elim (Bool-cases (validate_solution job candidate)) [
    | inl valid ↦
        let same : candidate ≡ s = ground (arith, e, r, valid) in
        let at_nonce = solution_for_nonce-nonce job nonce candidate r in
        subst (λ x. IsFirst job nonce (nonce + suc count) x) same
          (record {
            valid = valid;
            tried = subst (λ n. solution_for_nonce job n ≡ ok candidate) (sym at_nonce) r;
            bounded = omega (arith, at_nonce);
            first = λ n lo hi. absurd (omega (arith, at_nonce, lo, hi));
          })
    | inr misses ↦
        let rest = mine_loop-IsFirst job count (nonce + 1) s (ground (arith, e, r, misses)) in
        record {
          valid = rest.valid;
          tried = rest.tried;
          bounded = omega (arith, rest.bounded);
          first = λ n lo hi. elim (Bool-cases (n == nonce)) [
            | inl here ↦
                subst (λ k. Misses job k) (sym ((==_iff n nonce).0 here)) (candidate, r, misses)
            | inr later ↦ rest.first n (above nonce n lo later) hi
          ];
        }
  ]
]

-- What `mine` finds is valid, below the limit, and the first such: every smaller nonce has a digest
-- that is no solution.
pub mine-IsFirst :
    (params : VisionXParams) (job : PowJob) (nonce_limit : ℕ) (s : PowSolution)
    → mine params job nonce_limit ≡ some s
    → IsFirst job 0 nonce_limit s
unfolding mine
mine-IsFirst params job nonce_limit s e = elim (Bool-cases (same_params job.params params)) [
  | inr other ↦ absurd (ground (arith, e, other))
  | inl same ↦
      subst (λ n. IsFirst job 0 n s) (omega arith)
        (mine_loop-IsFirst job nonce_limit 0 s (ground (arith, e, same)))
]

-- A solution of a job with a preimage is its digest.
solution_for_nonce-digest :
    (params : VisionXParams) (prev : Bytes) (e : ℕ) (preimage : Bytes) (offset : ℕ) (target : Bytes)
    (s : PowSolution)
    → solution_for_nonce
        (record {
          params = params;
          prev_hash32 = prev;
          epoch = e;
          header_bytes = preimage;
          nonce_offset = offset;
          target = target;
          historical_preimage = some preimage;
        })
        s.nonce
      ≡ ok s
    → fresh_digest params prev e preimage s.nonce ≡ ok s.digest
unfolding solution_for_nonce hash_for_nonce
solution_for_nonce-digest params prev e preimage offset target s tried =
    let (found, p, made) =
      bind-ok (map_err digest (fresh_digest params prev e preimage s.nonce)) _ s tried in
    map_err-ok digest (fresh_digest params prev e preimage s.nonce) found p
    ∙ ap (λ (x : PowSolution). ok x.digest) (ok-injective made)

module _ ⦃ext : External⦄ where
  nonce_zero :
      (header : BlockHeader) (nonce : ℕ)
      → historical_vpow_message_bytes_with_nonce_zero (record header { nonce = nonce })
        ≡ historical_vpow_message_bytes_with_nonce_zero header
  unfolding historical_vpow_message_bytes_with_nonce_zero
  nonce_zero header nonce = refl

  -- A solution of a job made from a header is the digest of the block: the header with the nonce that
  -- was found has, for block acceptance, just the digest of the solution, for a job of the parent
  -- that the header names.
  pub mined-digest :
      (params : VisionXParams) (prev : Bytes) (e : ℕ) (header : BlockHeader) (offset : ℕ)
      (target : Bytes) (job : PowJob) (nonce_limit : ℕ) (s : PowSolution)
      → decode_hash_32 (text "parent_hash") header.parent_hash ≡ ok prev
      → from_historical_header params prev e header offset target ≡ ok job
      → mine params job nonce_limit ≡ some s
      → fresh_block_digest params e (record header { nonce = s.nonce }) ≡ ok s.digest
  unfolding from_historical_header fresh_block_digest
  mined-digest params prev e header offset target job nonce_limit s parent made found =
      let (preimage, zeroed, same) =
        bind-ok (historical_vpow_message_bytes_with_nonce_zero header) _ job made in
      let tried =
        subst (λ (j : PowJob). solution_for_nonce j s.nonce ≡ ok s) (sym (ok-injective same))
          (mine-IsFirst params job nonce_limit s found).tried in
      rw (fresh_block_digest, parent, nonce_zero header s.nonce, zeroed)
        (solution_for_nonce-digest params prev e preimage offset target s tried)

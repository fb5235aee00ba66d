-- ===== src/Visionx/Digest/Same.antt =====
-- The cache is not seen in a digest: it is that over the dataset of its key, built anew.
use vision_core.Prelude.{
  ℕ, ◌≡◌, refl, ap, true, Option, none, some, Result, ok, err, ok_or, if◌then◌else◌, not,
  Bool-cases, Option-cases, inl, inr, length,
}
use vision_core.Prelude.Text.{text}
use vision_core.Prelude.Bytes.{Bytes}
use vision_core.Types.{BlockHeader}
use vision_core.External.{External}
use vision_core.Chain.{VisionX}
use vision_core.Visionx.Params.{VisionXParams, params_within_bounds, epoch}
use vision_core.Visionx.Dataset.{Memory, build}
use vision_core.Visionx.Dataset.Size.{build-IsSized}
use vision_core.Visionx.Hash.{visionx_hash}
use vision_core.Visionx.Hash.Total.{visionx_hash-some}
use vision_core.Visionx.Message.{
  MessageError, decode_hash_32, historical_vpow_message_bytes_with_nonce_zero,
}
use vision_core.Visionx.Cache.{DatasetCache, DatasetCacheKey, find_entry, get}
use vision_core.Visionx.Cache.Faithful.{IsFaithful, find_entry-built, insert_if_absent-IsFaithful}
use vision_core.Visionx.Digest.{
  DigestError, invalid_params, message, panic_out_of_range, get_cached, visionx_digest,
  historical_block_digest,
}

-- What other threads do to the cache while a dataset is built keeps it faithful.
abbrev pub KeepsFaith : (DatasetCache → DatasetCache) → Type 0
KeepsFaith others = (c : DatasetCache) → IsFaithful c → IsFaithful (others c)

get_cached-build :
    (others : DatasetCache → DatasetCache) (cache : DatasetCache) (params : VisionXParams)
    (prev : Bytes) (e : ℕ)
    → KeepsFaith others
    → IsFaithful cache
    → IsFaithful (get_cached others cache params prev e).0
      × ((get_cached others cache params prev e).1 ≡ build params prev e)
unfolding get_cached get
get_cached-build others cache params prev e keeps p =
    let key : DatasetCacheKey = record { params = params; epoch = e; prev_hash32 = prev } in
    elim (Option-cases (find_entry key cache.entries)) [
      | inr (m, found) ↦ rw (get_cached, found) (p, find_entry-built key cache.entries m p found)
      | inl absent ↦
          rw (get_cached, absent) (insert_if_absent-IsFaithful (others cache) key (keeps cache p))
    ]

-- The digest with no cache, of a block of the chain.
unfoldable pub fresh_digest : VisionXParams → Bytes → ℕ → Bytes → ℕ → Result Bytes DigestError
unfolding params_within_bounds visionx_hash build
fresh_digest params prev_hash32 e header_bytes nonce =
    if not (params_within_bounds params)
    then err invalid_params
    else ok_or (visionx_hash params (build params prev_hash32 e) header_bytes nonce)
        panic_out_of_range

-- A digest through a cache is the digest over a dataset built anew, whatever was cached before and
-- whatever other threads cache meanwhile, and leaves the cache faithful; for a cache each entry of
-- which is the dataset of its key.
pub visionx_digest-fresh :
    (others : DatasetCache → DatasetCache) (cache : DatasetCache) (params : VisionXParams)
    (prev : Bytes) (e : ℕ) (header_bytes : Bytes) (nonce : ℕ)
    → KeepsFaith others
    → IsFaithful cache
    → IsFaithful (visionx_digest others cache params prev e header_bytes nonce).0
      × ((visionx_digest others cache params prev e header_bytes nonce).1
          ≡ fresh_digest params prev e header_bytes nonce)
unfolding visionx_digest fresh_digest
visionx_digest-fresh others cache params prev e header_bytes nonce keeps p =
    let (faithful, same) = get_cached-build others cache params prev e keeps p in
    elim (Bool-cases (params_within_bounds params)) [
      | inr outside ↦ rw outside (p, refl)
      | inl within ↦ rw within (
        faithful,
        ap (λ (m : Memory). ok_or (visionx_hash params m header_bytes nonce) panic_out_of_range)
            same,
      )
    ]

-- A digest never panics: with parameters within their bounds it is there, with 32 bytes.
pub fresh_digest-ok :
    (params : VisionXParams) (prev : Bytes) (e : ℕ) (header_bytes : Bytes) (nonce : ℕ)
    → params_within_bounds params ≡ true
    → (digest : Bytes) × (fresh_digest params prev e header_bytes nonce ≡ ok digest)
      × (length digest ≡ 32)
unfolding fresh_digest
fresh_digest-ok params prev e header_bytes nonce within =
    let (digest, made, len) =
      visionx_hash-some params (build params prev e) header_bytes nonce
        (build-IsSized params prev e) in
    (digest, rw within (rw made refl), len)

module _ ⦃ext : External⦄ where
  abbrev digest_option : Result Bytes DigestError → Option Bytes
  digest_option (ok digest) = some digest
  digest_option (err e) = none

  -- The digest of a header over fresh datasets.
  unfoldable pub fresh_block_digest : VisionXParams → ℕ → BlockHeader → Result Bytes DigestError
  unfolding decode_hash_32 historical_vpow_message_bytes_with_nonce_zero fresh_digest
  fresh_block_digest params e header =
      elim (decode_hash_32 (text "parent_hash") header.parent_hash) [
        | err x ↦ err (message x)
        | ok prev ↦ elim (historical_vpow_message_bytes_with_nonce_zero header) [
          | err x ↦ err (message x)
          | ok preimage ↦ fresh_digest params prev e preimage header.nonce
        ]
      ]

  -- The interface that block acceptance takes.
  unfoldable pub proof_of_work : VisionXParams → VisionX
  unfolding epoch fresh_block_digest
  proof_of_work params = record {
    epoch = epoch params;
    block_digest = λ e header. digest_option (fresh_block_digest params e header);
  }

  -- Through any faithful cache a header has the digest that block acceptance takes as a function of
  -- the epoch and the header, or the same error; and the cache stays faithful.
  pub historical_block_digest-fresh :
      (others : DatasetCache → DatasetCache) (cache : DatasetCache) (params : VisionXParams) (e : ℕ)
      (header : BlockHeader)
      → KeepsFaith others
      → IsFaithful cache
      → IsFaithful (historical_block_digest others cache params e header).0
        × ((historical_block_digest others cache params e header).1
            ≡ fresh_block_digest params e header)
  unfolding historical_block_digest fresh_block_digest
  historical_block_digest-fresh others cache params e header keeps p =
      on_parent (decode_hash_32 (text "parent_hash") header.parent_hash) refl
    where
      on_preimage :
          (prev : Bytes) (r : Result Bytes MessageError)
          → decode_hash_32 (text "parent_hash") header.parent_hash ≡ ok prev
          → historical_vpow_message_bytes_with_nonce_zero header ≡ r
          → IsFaithful (historical_block_digest others cache params e header).0
            × ((historical_block_digest others cache params e header).1
                ≡ fresh_block_digest params e header)
      on_preimage prev (err x) q m =
          rw (historical_block_digest, fresh_block_digest, q, m) (p, refl)
      on_preimage prev (ok preimage) q m =
          rw (historical_block_digest, fresh_block_digest, q, m)
            (visionx_digest-fresh others cache params prev e preimage header.nonce keeps p)

      on_parent :
          (r : Result Bytes MessageError)
          → decode_hash_32 (text "parent_hash") header.parent_hash ≡ r
          → IsFaithful (historical_block_digest others cache params e header).0
            × ((historical_block_digest others cache params e header).1
                ≡ fresh_block_digest params e header)
      on_parent (err x) q = rw (historical_block_digest, fresh_block_digest, q) (p, refl)
      on_parent (ok prev) q =
          on_preimage prev (historical_vpow_message_bytes_with_nonce_zero header) q refl

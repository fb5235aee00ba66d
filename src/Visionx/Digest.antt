-- ===== src/Visionx/Digest.antt =====
-- pow/visionx.rs: the digest of a header over a dataset that is cached, and its check. A panic of a
-- read out of range is an error of its own; `Same` proves that it does not happen.
pub mod Same
use vision_core.Prelude.{
  ℕ, Bool, true, false, not, Option, none, some, take, List, if◌then◌else◌, Result, ok, err, ◌>>=◌,
  ok_or,
}
use Prim.Native.Nat.Ordering.{gt}
use vision_core.Prelude.Text.{cmp}
use vision_core.Prelude.Bytes.{Bytes}
use vision_core.Types.{BlockHeader}
use vision_core.External.{External}
use vision_core.Prelude.Text.{text}
use vision_core.Chain.{VisionX}
use vision_core.Visionx.Params.{VisionXParams, params_within_bounds}
use vision_core.Visionx.Dataset.{Memory, build}
use vision_core.Visionx.Hash.{visionx_hash}
use vision_core.Visionx.Cache.{DatasetCache, DatasetCacheKey, get, insert_if_absent}
use vision_core.Visionx.Message.{
  MessageError, decode_hash_32, historical_vpow_message_bytes_with_nonce_zero, nonce_from_header,
}

pub data DigestError : Type 0 where
  invalid_params : DigestError
  message : MessageError → DigestError
  panic_out_of_range : DigestError

-- `get_cached`: the lock is free while a dataset is built, when `others` change the cache.
unfoldable pub get_cached :
    (DatasetCache → DatasetCache) → DatasetCache → VisionXParams → Bytes → ℕ → DatasetCache × Memory
unfolding get insert_if_absent build
get_cached others cache params prev_hash32 epoch =
    let key : DatasetCacheKey = record {
      params = params;
      epoch = epoch;
      prev_hash32 = prev_hash32;
    } in
    elim (get cache key) [
      | some dataset ↦ (cache, dataset)
      | none ↦
          let (kept, inserted) =
            insert_if_absent (others cache) key (build params prev_hash32 epoch) in
          (kept, inserted.dataset)
    ]

unfoldable pub visionx_digest :
    (DatasetCache → DatasetCache)
    → DatasetCache
    → VisionXParams
    → Bytes
    → ℕ
    → Bytes
    → ℕ
    → DatasetCache × Result Bytes DigestError
unfolding params_within_bounds get_cached visionx_hash
visionx_digest others cache params prev_hash32 epoch header_bytes nonce =
    if not (params_within_bounds params)
    then (cache, err invalid_params)
    else let (kept, dataset) = get_cached others cache params prev_hash32 epoch in
      (kept, ok_or (visionx_hash params dataset header_bytes nonce) panic_out_of_range)

-- `&hash[0..8] <= &target[0..8]`
unfoldable pub meets_target : Bytes → Bytes → Bool
unfolding cmp
meets_target h target = elim (cmp (take 8 h) (take 8 target)) [ gt ↦ false | _ ↦ true ]

unfoldable pub verify :
    (DatasetCache → DatasetCache)
    → DatasetCache
    → VisionXParams
    → Bytes
    → ℕ
    → Bytes
    → ℕ
    → Bytes
    → DatasetCache × Option Bool
unfolding params_within_bounds nonce_from_header get_cached visionx_hash meets_target
verify others cache params prev_hash32 epoch header_with_nonce nonce_offset target =
    if params_within_bounds params
    then elim (nonce_from_header header_with_nonce nonce_offset) [
      | none ↦ (cache, some false)
      | some nonce ↦
          let (kept, dataset) = get_cached others cache params prev_hash32 epoch in
          elim (visionx_hash params dataset header_with_nonce nonce) [
            | none ↦ (kept, none)
            | some digest ↦ (kept, some (meets_target digest target))
          ]
    ]
    else (cache, some false)

module _ ⦃ext : External⦄ where
  unfoldable pub historical_block_digest :
      (DatasetCache → DatasetCache)
      → DatasetCache
      → VisionXParams
      → ℕ
      → BlockHeader
      → DatasetCache × Result Bytes DigestError
  unfolding decode_hash_32 historical_vpow_message_bytes_with_nonce_zero visionx_digest
  historical_block_digest others cache params epoch header =
      elim (decode_hash_32 (text "parent_hash") header.parent_hash) [
        | err e ↦ (cache, err (message e))
        | ok prev_hash32 ↦ elim (historical_vpow_message_bytes_with_nonce_zero header) [
          | err e ↦ (cache, err (message e))
          | ok preimage ↦ visionx_digest others cache params prev_hash32 epoch preimage header.nonce
        ]
      ]

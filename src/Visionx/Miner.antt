-- ===== src/Visionx/Miner.antt =====
-- pow/visionx_miner.rs: a job of nonces to try, and the solution that it yields. Its digests go
-- through the cache of datasets, which is not seen in them, so they are those over fresh datasets.
pub mod Finds
use vision_core.Prelude.{
  ℕ, zero, suc, ◌+◌, Bool, true, false, not, ◌&&◌, Option, none, some, ◌++◌, length, take, drop,
  ltb, is_some, if◌then◌else◌, unwrap_or, Result, ok, err, ◌>>=◌, map_err,
}
use vision_core.Prelude.Text.{text_eq}
use vision_core.Prelude.Bytes.{Bytes, to_be_bytes}
use vision_core.Types.{BlockHeader}
use vision_core.External.{External}
use vision_core.Visionx.Params.{VisionXParams}
use vision_core.Visionx.Cache.{same_params}
use vision_core.Visionx.Message.{MessageError, historical_vpow_message_bytes_with_nonce_zero}
use vision_core.Visionx.Digest.{DigestError, message, meets_target}
use vision_core.Visionx.Digest.Same.{fresh_digest}

pub data JobError : Type 0 where
  nonce_out_of_bounds : (offset got : ℕ) → JobError
  digest : DigestError → JobError

-- The offset that overflows a `usize` needs more bytes than there are.
unfoldable pub inject_nonce : Bytes → ℕ → ℕ → Result Bytes JobError
unfolding to_be_bytes
inject_nonce header_bytes nonce_offset nonce =
    if ltb (length header_bytes) (nonce_offset + 8)
    then err (nonce_out_of_bounds nonce_offset (length header_bytes))
    else ok (
        take nonce_offset header_bytes
        ++ (to_be_bytes 8 nonce ++ drop (nonce_offset + 8) header_bytes))

pub record PowJob : Type 0 where
  pub params : VisionXParams
  pub prev_hash32 : Bytes
  pub epoch : ℕ
  pub header_bytes : Bytes
  pub nonce_offset : ℕ
  pub target : Bytes
  pub historical_preimage : Option Bytes

pub record PowSolution : Type 0 where
  pub nonce : ℕ
  pub digest : Bytes

-- `PowJob::new`
unfoldable pub new : VisionXParams → Bytes → ℕ → Bytes → ℕ → Bytes → Result PowJob JobError
unfolding inject_nonce
new params prev_hash32 epoch header_bytes nonce_offset target = do
  tried ← inject_nonce header_bytes nonce_offset 0
  ok (record {
    params = params;
    prev_hash32 = prev_hash32;
    epoch = epoch;
    header_bytes = header_bytes;
    nonce_offset = nonce_offset;
    target = target;
    historical_preimage = none;
  })

unfoldable pub from_historical_header :
    ⦃ext : External⦄
    → VisionXParams
    → Bytes
    → ℕ
    → BlockHeader
    → ℕ
    → Bytes
    → Result PowJob MessageError
unfolding historical_vpow_message_bytes_with_nonce_zero
from_historical_header params prev_hash32 epoch header nonce_offset target = do
  preimage ← historical_vpow_message_bytes_with_nonce_zero header
  ok (record {
    params = params;
    prev_hash32 = prev_hash32;
    epoch = epoch;
    header_bytes = preimage;
    nonce_offset = nonce_offset;
    target = target;
    historical_preimage = some preimage;
  })

unfoldable pub header_with_nonce : PowJob → ℕ → Result Bytes JobError
unfolding inject_nonce
header_with_nonce job nonce = inject_nonce job.header_bytes job.nonce_offset nonce

unfoldable pub hash_for_nonce : PowJob → ℕ → Result Bytes JobError
unfolding header_with_nonce fresh_digest
hash_for_nonce job nonce = elim job.historical_preimage [
  | some preimage ↦
      map_err digest (fresh_digest job.params job.prev_hash32 job.epoch preimage nonce)
  | none ↦ do
    with_nonce ← header_with_nonce job nonce
    map_err digest (fresh_digest job.params job.prev_hash32 job.epoch with_nonce nonce)
]

unfoldable pub solution_for_nonce : PowJob → ℕ → Result PowSolution JobError
unfolding hash_for_nonce
solution_for_nonce job nonce = do
  found ← hash_for_nonce job nonce
  ok (record { nonce = nonce; digest = found })

unfoldable pub validate_solution : PowJob → PowSolution → Bool
unfolding header_with_nonce hash_for_nonce text_eq meets_target
validate_solution job solution = elim (header_with_nonce job solution.nonce) [
  | err e ↦ false
  | ok bytes ↦ elim (hash_for_nonce job solution.nonce) [
    | err e ↦ false
    | ok expected ↦ text_eq solution.digest expected && meets_target solution.digest job.target
  ]
]

-- The loop of `mine` over `count` nonces, from `nonce`.
unfoldable pub mine_loop : PowJob → ℕ → ℕ → Option PowSolution
unfolding solution_for_nonce validate_solution
mine_loop job zero nonce = none
mine_loop job (suc count) nonce = elim (solution_for_nonce job nonce) [
  | err e ↦ none
  | ok candidate ↦ elim (validate_solution job candidate) [
    | true ↦ some candidate
    | false ↦ mine_loop job count (nonce + 1)
  ]
]

-- `VisionXMiner::mine`, for the parameters of the miner.
unfoldable pub mine : VisionXParams → PowJob → ℕ → Option PowSolution
unfolding mine_loop
mine params job nonce_limit =
    if not (same_params job.params params) then none else mine_loop job nonce_limit 0

-- ===== src/Tests/Digests.antt =====
-- Runs of the proof of work, with parameters small enough to evaluate.
use vision_core.Prelude.{
  ◌≡◌, refl, some, [], ◌∷◌, length, replicate, unwrap_or, Result, ok, err, arith,
}
use vision_core.Prelude.Text.{text}
use vision_core.Prelude.Bytes.{Bytes}
use vision_core.Types.{BlockHeader}
use vision_core.Visionx.Params.{VisionXParams}
use vision_core.Visionx.Dataset.{Memory}
use vision_core.Visionx.Hash.{visionx_hash}
use vision_core.Visionx.Hash.Total.{visionx_hash-some}
use vision_core.Visionx.Message.{
  MessageError, decode_hash_32, historical_vpow_message_bytes,
  historical_vpow_message_bytes_with_nonce_zero,
}
use vision_core.Visionx.Message.Layout.{SameWork, historical_vpow_message_bytes-injective}
use vision_core.Visionx.Cache.{empty}
use vision_core.Visionx.Cache.Faithful.{IsFaithful}
use vision_core.Visionx.Digest.{historical_block_digest}
use vision_core.Visionx.Digest.Same.{fresh_block_digest, historical_block_digest-fresh}
use vision_core.Visionx.Miner.{PowJob, PowSolution, from_historical_header, mine}
use vision_core.Visionx.Miner.Finds.{IsFirst, mine-IsFirst, mined-digest}
use vision_core.Tests.Host.{host}
use vision_core.Tests.Samples.{alice, genesis_block}

-- One word of each memory, and two rounds.
abbrev tiny : VisionXParams
tiny = record {
  dataset_mb = 0;
  scratch_mb = 0;
  mix_iters = 2;
  reads_per_iter = 4;
  write_every = 1;
  epoch_blocks = 32;
}

abbrev memory : Memory
memory = record { mem = 17 ∷ 5 ∷ []; mask = 1 }

visionx_hash-some_example :
    (digest : Bytes) × (visionx_hash tiny memory (text "header") 7 ≡ some digest)
    × (length digest ≡ 32)
visionx_hash-some_example = visionx_hash-some tiny memory (text "header") 7 (omega arith)

abbrev header : BlockHeader
header = genesis_block.header

historical_block_digest-fresh_example :
    IsFaithful (historical_block_digest (λ c. c) empty tiny 3 header).0
    × ((historical_block_digest (λ c. c) empty tiny 3 header).1 ≡ fresh_block_digest tiny 3 header)
historical_block_digest-fresh_example =
    historical_block_digest-fresh (λ c. c) empty tiny 3 header (λ c p. p) tt

abbrev bytes_of : Result Bytes MessageError → Bytes
bytes_of (ok bytes) = bytes
bytes_of (err e) = []

-- The header with another state root has the same message.
abbrev other_root : BlockHeader
other_root = record header { state_root = alice }

abbrev preimage : Bytes
preimage = bytes_of (historical_vpow_message_bytes header)

encoded : historical_vpow_message_bytes header ≡ ok preimage
unfolding historical_vpow_message_bytes host
encoded = refl

other_encoded : historical_vpow_message_bytes other_root ≡ ok preimage
unfolding historical_vpow_message_bytes host
other_encoded = refl

historical_vpow_message_bytes-injective_example : SameWork header other_root
historical_vpow_message_bytes-injective_example =
    historical_vpow_message_bytes-injective header other_root preimage
      (record {
        number_fits = omega arith;
        timestamp_fits = omega arith;
        difficulty_fits = omega arith;
        nonce_fits = omega arith;
      })
      (record {
        number_fits = omega arith;
        timestamp_fits = omega arith;
        difficulty_fits = omega arith;
        nonce_fits = omega arith;
      })
      encoded other_encoded

abbrev zeros : Bytes
zeros = replicate 32 0

abbrev job : PowJob
job = record {
  params = tiny;
  prev_hash32 = zeros;
  epoch = 3;
  header_bytes = bytes_of (historical_vpow_message_bytes_with_nonce_zero header);
  nonce_offset = 64;
  target = replicate 32 255;
  historical_preimage = some (bytes_of (historical_vpow_message_bytes_with_nonce_zero header));
}

abbrev found : PowSolution
found = unwrap_or (mine tiny job 3) (record { nonce = 9; digest = [] })

parent_decoded : decode_hash_32 (text "parent_hash") header.parent_hash ≡ ok zeros
unfolding decode_hash_32 host
parent_decoded = refl

job_made : from_historical_header tiny zeros 3 header 64 (replicate 32 255) ≡ ok job
unfolding from_historical_header historical_vpow_message_bytes_with_nonce_zero host
job_made = refl

job_mined : mine tiny job 3 ≡ some found
unfolding mine host historical_vpow_message_bytes_with_nonce_zero
job_mined = refl

mine-IsFirst_example : IsFirst job 0 3 found
mine-IsFirst_example = mine-IsFirst tiny job 3 found job_mined

mined-digest_example :
    fresh_block_digest tiny 3 (record header { nonce = found.nonce }) ≡ ok found.digest
mined-digest_example =
    mined-digest tiny zeros 3 header 64 (replicate 32 255) job 3 found parent_decoded job_made
      job_mined

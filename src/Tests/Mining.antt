-- ===== src/Tests/Mining.antt =====
-- Runs of the manager of the miner.
use vision_core.Prelude.{◌≡◌, refl, Option, some, [], unwrap_or, arith}
use vision_core.Prelude.Text.{cmp, text_eq}
use vision_core.Prelude.Map.{get, insert}
use vision_core.Block.{null_hash}
use vision_core.Miner.{MiningJob, build_candidate, coinbase_tx, apply_coinbase_reward, block_reward}
use vision_core.Transaction.{is_lowercase_hex_32_bytes}
use vision_core.StateRoot.{
  compute_state_root, canonical_state_vector, append_balances, append_entries, sort_by_key,
  decode_account_key, validate_account_key, append_nonces,
}
use vision_core.Miner.Candidate.{solved}
use vision_core.Miner.Manager.{
  build_candidate_for_tip, complete_job, candidate_on, run_candidate, candidate_root,
}
use vision_core.Miner.Manager.Offers.{IsOffer, build_candidate_for_tip-IsOffer}
use vision_core.Tests.Host.{host}
use vision_core.Tests.Samples.{alice, genesis_block, young_chain}

-- What the manager offers on the chain of the genesis, at second 1040.
abbrev offer : Option MiningJob
offer = (build_candidate_for_tip (λ n. 0) 1040 7 young_chain alice []).0

abbrev no_job : MiningJob
no_job = build_candidate (λ n. 0) genesis_block 0 [] [] [] 0

abbrev job : MiningJob
job = unwrap_or offer no_job

offered : offer ≡ some job
unfolding build_candidate_for_tip complete_job candidate_on run_candidate candidate_root
    build_candidate coinbase_tx apply_coinbase_reward block_reward compute_state_root get insert cmp
    text_eq is_lowercase_hex_32_bytes canonical_state_vector append_balances append_entries
    sort_by_key decode_account_key validate_account_key host append_nonces
offered = refl

build_candidate_for_tip-IsOffer_example :
    IsOffer young_chain genesis_block (solved job 42 null_hash)
build_candidate_for_tip-IsOffer_example =
    build_candidate_for_tip-IsOffer (λ n. 0) 1040 7 young_chain genesis_block alice [] job 42
      null_hash refl (omega arith) (omega arith) offered

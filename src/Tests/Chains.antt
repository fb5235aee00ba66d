-- ===== src/Tests/Chains.antt =====
-- Runs of block acceptance on a chain that has its genesis.
use vision_core.Prelude.{◌+◌, ◌^◌, ◌≤◌, ◌<◌, ◌≡◌, ◌⊎◌, refl, none, [], ◌∷◌, ok, err, arith, Result}
use vision_core.Prelude.Text.{Text, text, text_eq, cmp}
use vision_core.Prelude.Map.{Map, get, insert}
use vision_core.Prelude.Map.Total.{total}
use vision_core.Prelude.Bytes.{Bytes, from_be_bytes}
use vision_core.Types.{Block}
use vision_core.Transaction.Execute.{new}
use vision_core.StateRoot.{
  compute_state_root, StateRootError, append_balances, append_entries, append_nonces,
  decode_account_key, validate_account_key, sort_by_key, encode_header, canonical_state_vector,
}
use vision_core.Block.{null_hash, root_of, compute_tx_root}
use vision_core.Transaction.{canonical_tx_id, is_lowercase_hex_32_bytes}
use vision_core.Difficulty.{calculate_next_difficulty, difficulty_to_target}
use vision_core.Miner.{coinbase_tx, apply_coinbase_reward}
use vision_core.Chain.{ChainState, tip_hash, block_by_hash}
use vision_core.Chain.Replay.{run_blocks, walk_back, walk_fuel, check_blocks, run_block, check_root}
use vision_core.Store.{persist_canonical_extension}
use vision_core.Chain.Replay.Supply.{subsidies}
use vision_core.Chain.Replay.Walk.{Rising, walk_back-fuel}
use vision_core.Chain.Orphan.{count}
use vision_core.Chain.Accept.{
  canon_extension, rejected, weight_exceeds_limit, genesis_hash, accept_one, candidate_cw, work_of,
}
use vision_core.Chain.Step.{Step}
use vision_core.Chain.Step.Refines.{accept_one-Step}
use vision_core.Chain.Step.Ledger.{HasLedger, apply_block-HasLedger, apply_block-supply}
use vision_core.Chain.Step.Choice.{apply_block-rejected, accept_one-more_work}
use vision_core.Chain.Apply.{apply_block, apply_with, process_orphans}
use vision_core.Chain.Apply.Fuel.{apply_block-fuel}
use vision_core.Chain.Apply.Bounds.{IsBounded, apply_block-IsBounded}
use vision_core.Chain.Apply.Cache.{PowCache}
use vision_core.Tests.Host.{host, memory_store, zero_digest}
use vision_core.Tests.Samples.{alice, bob, block_of, young_chain, young_node}

abbrev root_or_null : Result Text StateRootError → Text
root_or_null (ok root) = root
root_or_null (err e) = null_hash

-- A block that Alice mined on the genesis.
abbrev pub child : Block
child =
    let b = block_of 1 1030 genesis_hash null_hash in
    record b {
      header = record b.header {
        tx_root = root_of (coinbase_tx 1 ∷ []);
        state_root = root_or_null (compute_state_root ((alice, 510000000000) ∷ []) []);
      };
      txs = coinbase_tx 1 ∷ [];
    }

child_extends : (accept_one 1100 young_chain child (text "anon")).1 ≡ canon_extension 1
unfolding accept_one text_eq root_of host memory_store compute_tx_root canonical_tx_id coinbase_tx
    get insert block_by_hash calculate_next_difficulty zero_digest difficulty_to_target
    from_be_bytes tip_hash run_block apply_coinbase_reward is_lowercase_hex_32_bytes check_root
    compute_state_root append_balances append_entries append_nonces decode_account_key
    validate_account_key sort_by_key encode_header cmp canonical_state_vector
    persist_canonical_extension
child_extends = refl

pub young-HasLedger : HasLedger young_chain
unfolding run_blocks
young-HasLedger = record { started = λ e. cc; replays = refl }

apply_block-HasLedger_example : HasLedger (apply_block 1100 young_node child none).0.chain
apply_block-HasLedger_example = apply_block-HasLedger 1100 young_node child none young-HasLedger

apply_block-supply_example :
    total (apply_block 1100 young_node child none).0.chain.balances
    ≤ subsidies (apply_block 1100 young_node child none).0.chain.blocks
apply_block-supply_example = apply_block-supply 1100 young_node child none young-HasLedger

accept_one-Step_example :
    Step 1100 young_chain child bob
      (accept_one 1100 young_chain child bob).0
      (accept_one 1100 young_chain child bob).1
accept_one-Step_example = accept_one-Step 1100 young_chain child bob

no_orphans : count young_chain.orphan_pool < 9
unfolding count
no_orphans = omega arith

apply_block-fuel_example :
    apply_block 1100 young_node child none
    ≡ apply_with 1100 (λ n h. (process_orphans 1100 9 n h).0) young_node child (text "anon")
apply_block-fuel_example = apply_block-fuel 1100 9 young_node child none tt no_orphans

abbrev heavy : Block
heavy = record child { weight = 400001 }

heavy_rejected : (apply_block 1100 young_node heavy none).1 ≡ rejected weight_exceeds_limit
unfolding apply_block accept_one
heavy_rejected = refl

apply_block-rejected_example : (apply_block 1100 young_node heavy none).0.chain ≡ young_chain
apply_block-rejected_example =
    apply_block-rejected 1100 young_node heavy none weight_exceeds_limit heavy_rejected

work_fits : work_of young_chain (tip_hash young_chain) + 1 < 2 ^ 128
unfolding tip_hash get text_eq
work_fits = omega arith

accept_one-more_work_example :
    ((accept_one 1100 young_chain child bob).0.blocks ≡ young_chain.blocks)
    ⊎ (work_of young_chain (tip_hash young_chain) < candidate_cw young_chain child)
accept_one-more_work_example = accept_one-more_work 1100 young_chain child bob refl work_fits

young-IsBounded : IsBounded young_chain
unfolding count
young-IsBounded = (tt, omega arith)

apply_block-IsBounded_example : IsBounded (apply_block 1100 young_node child none).0.chain
apply_block-IsBounded_example = apply_block-IsBounded 1100 young_node child none young-IsBounded

-- Two side blocks above the genesis.
abbrev forked : ChainState (Map Bytes)
forked = record young_chain {
  side_blocks = (alice, block_of 1 1030 genesis_hash alice) ∷ (bob, block_of 2 1060 alice bob) ∷ [];
}

forked-Rising : Rising forked
unfolding get text_eq
forked-Rising h blk parent e p = ground arith

enough : walk_fuel forked bob ≤ 5000
unfolding walk_fuel get text_eq
enough = omega arith

walk_back-fuel_example :
    walk_back 5000 forked bob [] ≡ walk_back (walk_fuel forked bob) forked bob []
walk_back-fuel_example = walk_back-fuel forked forked-Rising 5000 bob enough

abbrev cache : PowCache
cache = record { queue = alice ∷ []; members = (alice, tt) ∷ [] }

young_checked : check_blocks new young_chain.blocks ≡ ok new
unfolding check_blocks
young_checked = refl

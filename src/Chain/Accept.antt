-- ===== src/Chain/Accept.antt =====
-- chain/accept.rs: the stages of block acceptance, up to the promotion of orphans, which is in `Apply`.
mod Checks
unfoldable pub use Checks.*
use vision_core.Prelude.{
  ℕ, zero, suc, ◌+◌, ◌%◌, Bool, true, false, not, ◌&&◌, none, some, List, [], ◌∷◌, ◌++◌, ltb, leb,
  ◌==◌, if◌then◌else◌, all, head?, length, unwrap_or, Result, ok, err, ◌>>=◌, ◌>>◌, ensure, ok_or,
  map_err,
}
use vision_core.Prelude.Text.{Text, text, text_eq}
use vision_core.Prelude.Bytes.{u64_mod, from_be_bytes}
use vision_core.Prelude.Map.{Map, get, insert, contains_key}
use vision_core.Types.{Tx, Block, hash}
use vision_core.External.{External}
use vision_core.Transaction.{canonical_tx_id}
use vision_core.Transaction.Execute.{TxExecutionState}
use vision_core.Difficulty.{
  calculate_next_difficulty, difficulty_to_target, upper_le, retarget_window, difficulty_floor,
}
use vision_core.Block.{compute_tx_root}
use vision_core.Store.{Sled, store_block, persist_canonical_extension}
use vision_core.Chain.{ChainState, VisionX, tip_hash, block_by_hash}
use vision_core.Chain.Replay.{
  ReplayError, run_block, check_root, reconstruct_parent_state_for_side_chain,
}
use vision_core.Chain.Orphan.{add_orphan}
use vision_core.Chain.Reorg.{try_reorg, add_u128}
use vision_core.Chain.Snapshot.{maybe_save_snapshot}

module _ {Db : Type 0} where
  unfoldable pub push_canonical : ChainState Db → Block → ℕ → ChainState Db
  push_canonical g blk cw = record g {
    pending_reorg_recovery = none;
    cumulative_work = insert (hash blk) cw g.cumulative_work;
    seen_blocks = insert (hash blk) tt g.seen_blocks;
    canon_index = insert (hash blk) blk.header.number g.canon_index;
    blocks = g.blocks ++ blk ∷ [];
  }

  abbrev pub work_of : ChainState Db → Text → ℕ
  work_of g h = unwrap_or (get h g.cumulative_work) 0

  unfoldable pub candidate_cw : ChainState Db → Block → ℕ
  candidate_cw g blk = add_u128 (work_of g blk.header.parent_hash) blk.header.difficulty

  module _ ⦃ext : External⦄ where
    -- Stage 1
    unfoldable pub check_structure : ChainState Db → Block → Result (Unit {0}) RejectReason
    unfolding check_coinbase
    check_structure g blk = do
      ensure (leb blk.weight block_weight_limit) weight_exceeds_limit
      ensure (text_eq blk.header.tx_root (compute_tx_root blk)) tx_root_mismatch
      check_coinbase blk
      ensure (not (contains_key (hash blk) g.seen_blocks)) duplicate_block

    -- The account state at the parent, stage 6c.
    unfoldable pub parent_state : ChainState Db → Block → Result TxExecutionState ReplayError
    parent_state g blk =
        if text_eq blk.header.parent_hash (tip_hash g)
        then ok (record { balances = g.balances; nonces = g.nonces })
        else reconstruct_parent_state_for_side_chain g blk.header.parent_hash

    -- Stage 6 behind the coinbase and id checks: run the block and compare the state root.
    unfoldable pub execute_block : ChainState Db → Block → Result TxExecutionState ReplayError
    unfolding parent_state
    execute_block g blk = do
      parent ← parent_state g blk
      executed ← run_block parent blk
      check_root executed blk
      ok executed

    module _ ⦃pow : VisionX⦄ where
      -- Stages 3 to 6, at the wall clock `now`.
      unfoldable pub validate :
          ℕ → ChainState Db → Block → Block → Result TxExecutionState RejectReason
      unfolding verify_visionx_pow check_coinbase_height check_unique_ids execute_block
          collect_ancestor_window
      validate now g parent_blk blk = do
        ensure (ltb parent_blk.header.timestamp blk.header.timestamp) timestamp_not_monotonic
        ensure (leb blk.header.timestamp ((now + max_future_timestamp_secs) % u64_mod))
            timestamp_too_far
        let ancestor_window = collect_ancestor_window g blk.header.parent_hash
        let expected_diff = calculate_next_difficulty ancestor_window blk.header.timestamp
        ensure (leb difficulty_floor blk.header.difficulty) difficulty_below_floor
        ensure (blk.header.difficulty == expected_diff) difficulty_mismatch
        verify_visionx_pow blk
        check_coinbase_height blk
        check_unique_ids [] blk.txs
        map_err replay (execute_block g blk)

    module _ ⦃sled : Sled Db⦄ where
      -- Stage 2 at height 0.
      unfoldable pub accept_genesis : ChainState Db → Block → ChainState Db × AcceptResult
      unfolding push_canonical
      accept_genesis g blk =
          if not (text_eq (hash blk) genesis_hash)
          then (g, rejected genesis_hash_mismatch)
          else elim g.blocks [
            | b ∷ bs ↦ (g, rejected genesis_already_applied)
            | [] ↦ elim (persist_canonical_extension g.db blk) [
              | err e ↦ (g, rejected (persistence_failed e))
              | ok db ↦ (
                push_canonical (record g { db = db }) blk blk.header.difficulty,
                canon_extension 0,
              )
            ]
          ]

      -- Lane A: the block extends the tip.
      unfoldable pub extend_tip :
          ChainState Db → Block → TxExecutionState → ChainState Db × AcceptResult
      unfolding push_canonical maybe_save_snapshot
      extend_tip g blk state = elim (persist_canonical_extension g.db blk) [
        | err e ↦ (g, rejected (persistence_failed e))
        | ok db ↦
            let pushed =
              push_canonical
                (record g { balances = state.balances; nonces = state.nonces; db = db }) blk
                (candidate_cw g blk) in
            (
              record pushed { db = (maybe_save_snapshot pushed).0 },
              canon_extension blk.header.number,
            )
      ]

      -- The record of a valid block beside the canonical chain.
      abbrev pub record_side : ChainState Db → Block → Db → ChainState Db
      record_side g blk db = record g {
        cumulative_work = insert (hash blk) (candidate_cw g blk) g.cumulative_work;
        seen_blocks = insert (hash blk) tt g.seen_blocks;
        side_blocks = insert (hash blk) blk g.side_blocks;
        db = db;
      }

      -- The attempt at a reorganisation, for strictly more work than the tip's.
      unfoldable pub choose_chain :
          ChainState Db → ChainState Db → Block → ChainState Db × AcceptResult
      choose_chain before g blk =
          if ltb (work_of before (tip_hash before)) (candidate_cw before blk)
          then elim (try_reorg g blk) [
            | ok (next, recovery) ↦ (
              record next { pending_reorg_recovery = some recovery },
              canon_extension blk.header.number,
            )
            | err e ↦ (g, side_chain blk.header.number)
          ]
          else (g, side_chain blk.header.number)

      -- Lane B: the block is off the tip.
      unfoldable pub add_side : ChainState Db → Block → ChainState Db × AcceptResult
      unfolding choose_chain
      add_side g blk = elim (store_block g.db blk) [
        | err e ↦ (g, rejected (persistence_failed e))
        | ok db ↦ choose_chain g (record_side g blk db) blk
      ]

      -- Stages 7 and 8.
      unfoldable pub integrate :
          ChainState Db → Block → TxExecutionState → ChainState Db × AcceptResult
      unfolding extend_tip add_side
      integrate g blk state =
          if text_eq blk.header.parent_hash (tip_hash g)
          then extend_tip g blk state
          else add_side g blk

      module _ ⦃pow : VisionX⦄ (now : ℕ) where
        -- Stages 3 to 8, for a known parent.
        unfoldable pub accept_child : ChainState Db → Block → ChainState Db × AcceptResult
        unfolding validate integrate
        accept_child g blk = elim (block_by_hash g blk.header.parent_hash) [
          | none ↦ (g, rejected panic_parent_absent)
          | some parent_blk ↦ elim (validate now g parent_blk blk) [
            | err r ↦ (g, rejected r)
            | ok state ↦ integrate g blk state
          ]
        ]

        abbrev pub parent_known : ChainState Db → Block → Bool
        parent_known g blk =
            if contains_key blk.header.parent_hash g.canon_index
            then true
            else contains_key blk.header.parent_hash g.side_blocks

        -- Stages 2 to 8 above height 0: a block whose parent is unknown waits in the orphan pool.
        unfoldable pub accept_above : ChainState Db → Block → Text → ChainState Db × AcceptResult
        unfolding accept_child
        accept_above g blk source_peer =
            if parent_known g blk
            then accept_child g blk
            else (add_orphan now g blk source_peer, stored_orphan (hash blk))

        -- The stages of `apply_block`, without the promotion of orphans.
        unfoldable pub accept_one : ChainState Db → Block → Text → ChainState Db × AcceptResult
        unfolding check_structure accept_genesis accept_above
        accept_one g blk source_peer = elim (check_structure g blk) [
          | err r ↦ (g, rejected r)
          | ok u ↦
              if blk.header.number == 0
              then accept_genesis g blk
              else accept_above g blk source_peer
        ]

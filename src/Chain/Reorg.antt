-- ===== src/Chain/Reorg.antt =====
-- chain/reorg.rs: the replacement of the canonical branch by one with more work.
pub mod Shape
use vision_core.Prelude.{
  ℕ, ◌+◌, ◌%◌, not, Option, none, some, List, [], ◌∷◌, ◌++◌, map, take, drop, keep_if, head?,
  if◌then◌else◌, unwrap_or, Result, ok, err, ◌>>=◌, ◌>>◌, ensure, ok_or, map_err,
}
use vision_core.Prelude.Text.{Text, text, text_eq}
use vision_core.Prelude.Bytes.{u128_mod}
use vision_core.Prelude.Map.{Map, get, insert, remove, contains_key, keys}
use vision_core.Types.{Tx, Block, hash}
use vision_core.External.{External}
use vision_core.Transaction.{canonical_tx_id}
use vision_core.Transaction.Execute.{TxExecutionState}
use vision_core.StateRoot.{compute_state_root}
use vision_core.Store.{Sled, persist_canonical_reorg}
use vision_core.Chain.{ChainState, ReorgRecovery, current_height}
use vision_core.Chain.Replay.{
  ReplayError, walk_back, walk_fuel, check_canonical_state_at_height, reconstruct_branch_state,
}

-- Why a reorganisation is abandoned. The source logs the reason and returns `None`.
pub data ReorgAbort : Type 0 where
  no_ancestry ancestor_not_canonical : ReorgAbort
  replay_failed : ReplayError → ReorgAbort
  root_construction_failed root_mismatch : ReorgAbort
  persistence_failed : (reason : Text) → ReorgAbort

abbrev pub add_u128 : ℕ → ℕ → ℕ
add_u128 a b = (a + b) % u128_mod

unfoldable pub total_difficulty : List Block → ℕ
total_difficulty [] = 0
total_difficulty (b ∷ bs) = add_u128 b.header.difficulty (total_difficulty bs)

-- `flat_map` of the transactions behind the coinbase.
unfoldable pub non_coinbase_txs : List Block → List Tx
non_coinbase_txs [] = []
non_coinbase_txs (b ∷ bs) = drop 1 b.txs ++ non_coinbase_txs bs

-- `collect` into a `BTreeSet`
unfoldable pub set_of : List Text → Map (Unit {0})
set_of [] = []
set_of (t ∷ ts) = insert t tt (set_of ts)

-- What a branch must pass: the ancestor's height, the account state at its tip, and its root.
pub record Branch : Type 0 where
  pub common_hash : Text
  pub common_height : ℕ
  pub segment : List Block
  pub replay_state : TxExecutionState
  pub state_root : Text

module _ {Db : Type 0} where
  -- The side blocks above the canonical ancestor; empty when there is none.
  unfoldable pub collect_new_segment : ChainState Db → Text → List Block
  unfolding walk_back walk_fuel
  collect_new_segment g tip = elim (walk_back (walk_fuel g tip) g tip []) [
    | none ↦ []
    | some (height, segment) ↦ segment
  ]

  -- The loop over the blocks that leave the canonical chain.
  unfoldable pub demote : ChainState Db → List Block → ChainState Db
  demote g [] = g
  demote g (blk ∷ blks) =
      demote
        (record g {
          canon_index = remove (hash blk) g.canon_index;
          side_blocks = insert (hash blk) blk g.side_blocks;
        })
        blks

  -- The loop over the new segment, with the work up to each block.
  unfoldable pub promote : ℕ → ChainState Db → List Block → ChainState Db
  promote cw g [] = g
  promote cw g (blk ∷ blks) =
      let next = add_u128 cw blk.header.difficulty in
      promote next
        (record g {
          canon_index = insert (hash blk) blk.header.number g.canon_index;
          side_blocks = remove (hash blk) g.side_blocks;
          cumulative_work = insert (hash blk) next g.cumulative_work;
          seen_blocks = insert (hash blk) tt g.seen_blocks;
          blocks = g.blocks ++ blk ∷ [];
        })
        blks

  -- The new maps: the blocks above the ancestor leave, those of the segment enter.
  unfoldable pub switch_branch : ChainState Db → Text → ℕ → List Block → ChainState Db
  unfolding demote promote total_difficulty
  switch_branch g common_hash common_height segment =
      let kept = take (common_height + 1) g.blocks in
      let demoted = demote g (drop (common_height + 1) g.blocks) in
      let cw = unwrap_or (get common_hash g.cumulative_work) (total_difficulty kept) in
      promote cw (record demoted { blocks = kept }) segment

  module _ ⦃ext : External⦄ where
    unfoldable pub reorg_recovery : ChainState Db → ℕ → List Block → ReorgRecovery
    unfolding non_coinbase_txs set_of
    reorg_recovery g common_height segment =
        let winning = set_of (map (λ tx. canonical_tx_id tx) (non_coinbase_txs segment)) in
        record {
          displaced_txs =
              keep_if (λ tx. not (contains_key (canonical_tx_id tx) winning))
                (non_coinbase_txs (drop (common_height + 1) g.blocks));
          winning_tx_ids = keys winning;
        }

    unfoldable pub validate_branch : ChainState Db → Block → Result Branch ReorgAbort
    unfolding collect_new_segment check_canonical_state_at_height reconstruct_branch_state
    validate_branch g new_tip = do
      let segment = collect_new_segment g (hash new_tip)
      oldest ← ok_or (head? segment) no_ancestry
      let common_hash = oldest.header.parent_hash
      common_height ← ok_or (get common_hash g.canon_index) ancestor_not_canonical
      ancestor_state ← map_err replay_failed (check_canonical_state_at_height g common_height)
      replay_state ←
          map_err replay_failed (reconstruct_branch_state common_hash ancestor_state segment)
      root ←
          map_err (λ _. root_construction_failed)
            (compute_state_root replay_state.balances replay_state.nonces)
      ensure (text_eq root new_tip.header.state_root) root_mismatch
      ok (record {
        common_hash = common_hash;
        common_height = common_height;
        segment = segment;
        replay_state = replay_state;
        state_root = root;
      })

    module _ ⦃sled : Sled Db⦄ where
      -- Nothing changes unless the whole branch is valid and the batch is written.
      unfoldable pub try_reorg :
          ChainState Db → Block → Result (ChainState Db × ReorgRecovery) ReorgAbort
      unfolding validate_branch switch_branch reorg_recovery
      try_reorg g new_tip = do
        b ← validate_branch g new_tip
        let switched = switch_branch g b.common_hash b.common_height b.segment
        db ←
            map_err persistence_failed
              (persist_canonical_reorg g.db switched.blocks (current_height g))
        ok (
          record switched {
            balances = b.replay_state.balances;
            nonces = b.replay_state.nonces;
            cached_state_root = some (new_tip.header.number, b.state_root);
            db = db;
          },
          reorg_recovery g b.common_height b.segment,
        )

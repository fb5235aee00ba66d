-- ===== src/Node/Bootstrap.antt =====
-- node/bootstrap.rs: the chain at startup. The genesis is written or checked, the newest snapshot is
-- restored and the stored tail replayed, or else the chain is rebuilt from the genesis.
pub mod Ledger
use vision_core.Prelude.{
  ℕ, zero, suc, ◌+◌, ◌-◌, Bool, true, false, Option, none, some, List, [], ◌∷◌, ◌++◌, ltb, leb,
  ◌==◌, if◌then◌else◌, Result, ok, err, ◌>>=◌, ◌>>◌, ensure, ok_or,
}
use vision_core.Prelude.Text.{Text, text}
use vision_core.Prelude.Map.{insert}
use vision_core.Types.{Block, hash}
use vision_core.External.{External}
use vision_core.Genesis.{genesis_block, validate_genesis_hash, verify_stored_genesis}
use vision_core.Store.{Sled, store_block}
use vision_core.Store.Reads.{load_meta, store_meta, store_height_index, parse_u64}
use vision_core.Chain.{ChainState, VisionX, current_height, refresh_cached_state_root_from_tip}
use vision_core.Chain.Accept.{AcceptResult, canon_extension}
use vision_core.Chain.Apply.{Node, apply_block}
use vision_core.Chain.Reload.{read_height, open_with_genesis}
use vision_core.Chain.Restore.{restore_latest_snapshot}

module _ {Db : Type 0} where
  -- The genesis enters the blocks and the height index only.
  abbrev pub push_genesis : ChainState Db → Db → ChainState Db
  push_genesis g db = record g {
    db = db;
    blocks = g.blocks ++ genesis_block ∷ [];
    canon_index = insert (hash genesis_block) 0 g.canon_index;
  }

  -- The chain of a node, with the cached root taken from its tip.
  abbrev pub with_chain : Node Db → ChainState Db → Node Db
  with_chain node g = record node { chain = g }

  -- `refresh_cached_state_root_from_tip` on the chain of a node.
  abbrev pub refresh : Node Db → Node Db
  refresh node = with_chain node (refresh_cached_state_root_from_tip node.chain)

  -- What a rebuild clears.
  unfoldable pub clear_canonical : ChainState Db → ChainState Db
  clear_canonical g = record g {
    blocks = [];
    canon_index = [];
    cumulative_work = [];
    seen_blocks = [];
    balances = [];
    nonces = [];
    cached_state_root = none;
  }

-- The callers of the two replays drop the height that they return.
abbrev pub forget_tip : {A : Type 0} → Result (A × ℕ) Text → Result A Text
forget_tip (ok (a, tip)) = ok a
forget_tip (err e) = err e

-- `CanonExtension { height: applied_height } if applied_height == height`
abbrev pub extended_to : ℕ → AcceptResult → Bool
extended_to height (canon_extension applied_height) = applied_height == height
extended_to height _ = false

module _ {Db : Type 0} ⦃ext : External⦄ ⦃sled : Sled Db⦄ where
  -- The writes of a genesis block into an empty store; a failed startup loses the store's state.
  unfoldable pub write_genesis : ChainState Db → Result (ChainState Db) Text
  unfolding store_block store_height_index store_meta genesis_block
  write_genesis g = do
    stored ← store_block g.db genesis_block
    let (indexed, written) = store_height_index stored 0 (hash genesis_block)
    written
    db ← store_meta indexed (text "genesis_hash") (hash genesis_block)
    ok (push_genesis g db)

  unfoldable pub bootstrap_chain : ChainState Db → Result (ChainState Db) Text
  unfolding validate_genesis_hash verify_stored_genesis write_genesis
  bootstrap_chain g = do
    validate_genesis_hash
    stored ← load_meta g.db (text "genesis_hash")
    elim stored [
      | none ↦ write_genesis g
      | some stored_hash ↦ do verify_stored_genesis stored_hash; ok g
    ]

  -- The persisted height of the tip.
  unfoldable pub persisted_tip : Db → Result ℕ Text
  unfolding parse_u64
  persisted_tip db = do
    stored ← load_meta db (text "tip_height")
    digits ← ok_or stored (text "missing persisted tip height")
    ok_or (parse_u64 digits) (text "invalid digit")

  -- The block stored for a height, which it must report itself.
  unfoldable pub block_for : Db → ℕ → Result Block Text
  unfolding read_height
  block_for db height = do
    (h, block) ← read_height db height
    ensure (block.header.number == height) (text "block height mismatch")
    ok block

  -- The first loop of `rebuild_canonical_state_from_genesis`, over `count` heights.
  unfoldable pub collect_blocks : ℕ → ℕ → Db → Result (List Block) Text
  unfolding block_for
  collect_blocks zero height db = ok []
  collect_blocks (suc count) height db = do
    block ← block_for db height
    blocks ← collect_blocks count (height + 1) db
    ok (block ∷ blocks)

  module _ ⦃pow : VisionX⦄ (now : ℕ) where
    -- One block of a replay: `apply_block`, which must extend the chain to the height.
    unfoldable pub replay_block : Node Db → Block → ℕ → Result (Node Db) Text
    unfolding apply_block
    replay_block node block height =
        let (next, result) = apply_block now node block none in
        if extended_to height result
        then ok (refresh next)
        else err (text "startup replay rejected")

    -- The loop of `replay_stored_canonical_tail`, over `count` heights.
    unfoldable pub replay_heights : ℕ → ℕ → Node Db → Result (Node Db) Text
    unfolding block_for replay_block
    replay_heights zero height node = ok node
    replay_heights (suc count) height node = do
      block ← block_for node.chain.db height
      next ← replay_block node block height
      replay_heights count (height + 1) next

    unfoldable pub replay_stored_canonical_tail : Node Db → ℕ → Result (Node Db × ℕ) Text
    unfolding persisted_tip replay_heights
    replay_stored_canonical_tail node restored_height = do
      tip_height ← persisted_tip node.chain.db
      next ←
          if leb tip_height restored_height
          then ok (refresh node)
          else replay_heights (tip_height - restored_height) (restored_height + 1) node
      ok (next, tip_height)

    -- The second loop of `rebuild_canonical_state_from_genesis`.
    unfoldable pub rebuild_blocks : List Block → Node Db → Result (Node Db) Text
    unfolding replay_block
    rebuild_blocks [] node = ok node
    rebuild_blocks (block ∷ blocks) node = do
      next ← replay_block node block block.header.number
      rebuild_blocks blocks next

    unfoldable pub rebuild_canonical_state_from_genesis : Node Db → Result (Node Db × ℕ) Text
    unfolding persisted_tip collect_blocks rebuild_blocks clear_canonical
    rebuild_canonical_state_from_genesis node = do
      tip_height ← persisted_tip node.chain.db
      blocks ← collect_blocks (tip_height + 1) 0 node.chain.db
      next ← rebuild_blocks blocks (with_chain node (clear_canonical node.chain))
      ok (next, tip_height)

    -- What follows the genesis check: a snapshot and the tail, or a rebuild, or the genesis alone.
    unfoldable pub recover_chain : Node Db → Result (Node Db) Text
    unfolding restore_latest_snapshot replay_stored_canonical_tail
        rebuild_canonical_state_from_genesis
    recover_chain node =
        let height = current_height node.chain in
        elim (restore_latest_snapshot node.chain height) [
          | ok (restored, restored_height) ↦
              forget_tip (replay_stored_canonical_tail (with_chain node restored) restored_height)
          | err e ↦
              if ltb 0 height
              then forget_tip (rebuild_canonical_state_from_genesis node)
              else ok node
        ]

    -- `initialize_chain_state` on an opened database, in a process that has an empty cache.
    unfoldable pub initialize_chain_state : Db → Result (Node Db) Text
    unfolding open_with_genesis bootstrap_chain recover_chain
    initialize_chain_state db = do
      opened ← open_with_genesis db
      bootstrapped ← bootstrap_chain opened
      recover_chain (record {
        chain = refresh_cached_state_root_from_tip bootstrapped;
        pow_cache = record { queue = []; members = [] };
      })

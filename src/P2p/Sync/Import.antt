-- ===== src/P2p/Sync/Import.antt =====
-- p2p/sync.rs: `import_fetched_blocks`. The chain's lock is taken twice for a block that extends the
-- chain, and the other tasks may run before each.
pub mod Ledger
use vision_core.Prelude.{
  ℕ, ◌+◌, Bool, true, false, Option, none, some, List, [], ◌∷◌, ◌++◌, if◌then◌else◌, is_some,
  Result, ok, err,
}
use vision_core.Prelude.Text.{Text, text}
use vision_core.Types.{Block, hash}
use vision_core.External.{External}
use vision_core.Store.{Sled}
use vision_core.Chain.{
  ChainState, ReorgRecovery, VisionX, block_by_hash, refresh_cached_state_root_from_tip,
}
use vision_core.Chain.Accept.{
  AcceptResult, RejectReason, canon_extension, side_chain, stored_orphan, rejected,
}
use vision_core.Chain.Apply.{Node, apply_block}
use vision_core.Mempool.{Pool}
use vision_core.Mempool.Requeue.{requeue_after_reorg}
use vision_core.P2p.Sync.Host.{Host, Schedule}

module _ {Db : Type 0} ⦃ext : External⦄ where
  -- `pending_reorg_recovery.take()` after the refresh: the record is gone whether or not a pool is
  -- there to offer its transactions to.
  abbrev pub requeue_pool : ChainState Db → Option Pool → Option ReorgRecovery → Option Pool
  requeue_pool g none recovery = none
  requeue_pool g (some pool) none = some pool
  requeue_pool g (some pool) (some recovery) = some (requeue_after_reorg g pool recovery).0

  unfoldable pub settle_extension : Host Db → Host Db
  unfolding refresh_cached_state_root_from_tip requeue_after_reorg
  settle_extension h =
      let refreshed = refresh_cached_state_root_from_tip h.node.chain in
      let taken = record refreshed { pending_reorg_recovery = none } in
      record h {
        node = record h.node { chain = taken };
        pool = requeue_pool taken h.pool refreshed.pending_reorg_recovery;
      }

  module _ ⦃sled : Sled Db⦄ ⦃pow : VisionX⦄ (describe : RejectReason → Text)
      (schedule : Schedule Db) where
    -- What follows the acceptance of a block at lock `k`: whether it counts as imported.
    unfoldable pub settle : ℕ → Host Db → AcceptResult → Host Db × Result Bool Text
    unfolding settle_extension
    settle k h (canon_extension height) = (settle_extension (schedule.others (k + 1) h), ok true)
    settle k h (side_chain height) = (h, ok true)
    settle k h (stored_orphan block_hash) =
        (h, err (text "sync import stored orphan " ++ block_hash))
    settle k h (rejected reason) = (h, err (text "sync import rejected: " ++ describe reason))

    -- One round of the loop; a block that is known is skipped.
    unfoldable pub import_block : ℕ → Text → Block → Host Db → Host Db × Result Bool Text
    unfolding settle block_by_hash apply_block
    import_block k peer_addr block h =
        let locked = schedule.others k h in
        if is_some (block_by_hash locked.node.chain (hash block))
        then (locked, ok false)
        else let (node, result) =
            apply_block (schedule.clock k) locked.node block (some peer_addr) in
          settle k (record locked { node = node }) result

    -- The loop, from lock `k`, with the count of the blocks imported.
    unfoldable pub import_fetched_blocks :
        ℕ → Text → List Block → ℕ → Host Db → Host Db × Result ℕ Text
    unfolding import_block
    import_fetched_blocks k peer_addr [] imported h = (h, ok imported)
    import_fetched_blocks k peer_addr (block ∷ blocks) imported h =
        let (next, result) = import_block k peer_addr block h in
        elim result [
          | err e ↦ (next, err e)
          | ok added ↦
              import_fetched_blocks (k + 2) peer_addr blocks
                (if added then imported + 1 else imported) next
        ]

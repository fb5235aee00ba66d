-- ===== src/Node/Announced.antt =====
-- node/services.rs: `import_announced_blocks`, the task that imports the blocks that peers announce.
pub mod Pending
use vision_core.Prelude.{ℕ, ◌+◌, Option, none, some, List, [], ◌∷◌, ◌++◌, map}
use mathlib.Core.Option
use vision_core.Prelude.Text.{Text}
use vision_core.Types.{Tx, Block}
use vision_core.External.{External}
use vision_core.Transaction.{canonical_tx_id}
use vision_core.Store.{Sled}
use vision_core.Chain.{ChainState, ReorgRecovery, VisionX, refresh_cached_state_root_from_tip}
use vision_core.Chain.Accept.{AcceptResult, canon_extension, side_chain, stored_orphan, rejected}
use vision_core.Chain.Apply.{Node, apply_block}
use vision_core.Mempool.{Pool, remove_confirmed}
use vision_core.Mempool.Requeue.{requeue_after_reorg}
use vision_core.Miner.Manager.{MinerManager, clear_job}
use vision_core.Node.Recovery.{RecoveryState, clear_if_local_satisfies_claim}
use vision_core.P2p.Protocol.{from_chain}

-- What the task shares with the others, and the blocks that it relays, each with the peer to leave out.
pub record Services (Db : Type 0) : Type 0 where
  pub node : Node Db
  pub pool : Pool
  pub recovery : RecoveryState
  pub miner : Option MinerManager
  pub relayed : List (Block × Text)

-- A block from the queue, with the clock when it is applied and the changes of the other tasks before
-- each of the two times that the chain is locked.
pub record Arrival (Db : Type 0) : Type 0 where
  pub block : Block
  pub peer_addr : Text
  pub now : ℕ
  pub before : Services Db → Services Db
  pub between : Services Db → Services Db

abbrev pub confirmed_tx_ids : ⦃ext : External⦄ → Block → List Text
confirmed_tx_ids block = map (λ tx. canonical_tx_id tx) block.txs

module _ {Db : Type 0} ⦃ext : External⦄ where
  -- `pending_reorg_recovery.take()`, after the removal
  abbrev pub requeued : ChainState Db → Pool → Option ReorgRecovery → Pool
  requeued g pool none = pool
  requeued g pool (some recovery) = (requeue_after_reorg g pool recovery).0

  -- Under the first lock, after an extension.
  unfoldable pub settle_announced : Block → Services Db → Services Db
  unfolding refresh_cached_state_root_from_tip remove_confirmed requeue_after_reorg
  settle_announced block s =
      let refreshed = refresh_cached_state_root_from_tip s.node.chain in
      let taken = record refreshed { pending_reorg_recovery = none } in
      record s {
        node = record s.node { chain = taken };
        pool =
            requeued taken (remove_confirmed s.pool (confirmed_tx_ids block))
              refreshed.pending_reorg_recovery;
      }

  -- After the second lock, for the summary: the claim, the miner's job, and the relay.
  unfoldable pub relay : Block → Text → Services Db → Services Db
  unfolding from_chain clear_if_local_satisfies_claim clear_job
  relay block peer_addr s = record s {
    recovery = (clear_if_local_satisfies_claim s.recovery (from_chain s.node.chain)).0;
    miner = Option.map clear_job s.miner;
    relayed = s.relayed ++ (block, peer_addr) ∷ [];
  }

  abbrev pub after_announced : Arrival Db → Services Db → AcceptResult → Services Db
  after_announced a s (canon_extension height) =
      relay a.block a.peer_addr (a.between (settle_announced a.block s))
  after_announced a s _ = s

  module _ ⦃sled : Sled Db⦄ ⦃pow : VisionX⦄ where
    unfoldable pub import_announced_block : Arrival Db → Services Db → Services Db
    unfolding apply_block settle_announced relay
    import_announced_block a s =
        let locked = a.before s in
        let (node, result) = apply_block a.now locked.node a.block (some a.peer_addr) in
        after_announced a (record locked { node = node }) result

    -- The loop, up to the end of the queue.
    unfoldable pub import_announced_blocks : List (Arrival Db) → Services Db → Services Db
    unfolding import_announced_block
    import_announced_blocks [] s = s
    import_announced_blocks (a ∷ as') s = import_announced_blocks as' (import_announced_block a s)

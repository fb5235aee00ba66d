-- ===== src/Node/Announced/Pending.antt =====
-- No transaction of an announced block that extends the chain stays pending.
use vision_core.Prelude.{◌≡◌, refl, ◌∙◌, true, Option, none, some, List, arith}
use vision_core.Prelude.Text.{Text}
use vision_core.Prelude.Map.{get}
use vision_core.Types.{Tx, Block}
use vision_core.External.{External}
use vision_core.Chain.{ChainState, ReorgRecovery, refresh_cached_state_root_from_tip}
use vision_core.Mempool.{Pool, remove_confirmed}
use vision_core.Mempool.View.{Represents}
use vision_core.Mempool.Filter.{
  mem, keep_ids, unconfirmed, find-keep_ids, remove_confirmed-Represents,
}
use vision_core.Mempool.Requeue.Report.{requeue_after_reorg-absent}
use vision_core.Node.Announced.{Services, confirmed_tx_ids, requeued, settle_announced}

module _ {Db : Type 0} ⦃ext : External⦄ where
  requeued-absent :
      (g : ChainState Db) (pool : Pool) (l : List Tx) (pending : Option ReorgRecovery)
      (confirmed : List Text) (id : Text)
      → Represents pool l
      → mem id confirmed ≡ true
      → ((r : ReorgRecovery) → pending ≡ some r → mem id r.winning_tx_ids ≡ true)
      → get id (requeued g (remove_confirmed pool confirmed) pending).by_id ≡ none
  requeued-absent g pool l none confirmed id h m w =
      let kept = remove_confirmed-Represents pool l confirmed h in
      kept.lookup id ∙ ground (arith, find-keep_ids (unconfirmed confirmed) id l, m)
  requeued-absent g pool l (some r) confirmed id h m w =
      requeue_after_reorg-absent g (remove_confirmed pool confirmed)
        (keep_ids (unconfirmed confirmed) l) r id (remove_confirmed-Represents pool l confirmed h)
        (w r refl)

  -- After an announced block has extended the chain, none of its transactions is pending, with or
  -- without a reorganisation; for a pool that holds a list, and a record of the reorganisation, if
  -- there is one, that counts the transactions of the block among those of the new branch.
  pub settle_announced-absent :
      (block : Block) (s : Services Db) (l : List Tx) (id : Text)
      → Represents s.pool l
      → mem id (confirmed_tx_ids block) ≡ true
      → ((r : ReorgRecovery)
          → s.node.chain.pending_reorg_recovery ≡ some r
          → mem id r.winning_tx_ids ≡ true)
      → get id (settle_announced block s).pool.by_id ≡ none
  unfolding settle_announced refresh_cached_state_root_from_tip
  settle_announced-absent block s l id h m w =
      let refreshed = refresh_cached_state_root_from_tip s.node.chain in
      requeued-absent (record refreshed { pending_reorg_recovery = none }) s.pool l
        s.node.chain.pending_reorg_recovery (confirmed_tx_ids block) id h m w

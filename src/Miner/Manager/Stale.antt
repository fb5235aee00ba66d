-- ===== src/Miner/Manager/Stale.antt =====
-- A transaction that a synchronisation confirmed and that stays pending, and what the miner makes of it.
use vision_core.Prelude.{
  ℕ, ◌≡◌, ◌≢◌, refl, ap, ◌∙◌, none, some, List, ◌∷◌, take, last?, Result-cases, Option-cases, inl,
  inr, arith,
}
use vision_core.Prelude.Text.{Text, text_eq_refl}
use vision_core.Prelude.Map.{get}
use vision_core.Types.{Tx}
use vision_core.External.{External}
use vision_core.Transaction.{canonical_tx_id}
use vision_core.Transaction.Execute.{TxExecutionState, nonce_of, simulate_tx_execution}
use vision_core.Transaction.Execute.Effect.{simulate-Effect}
use vision_core.Chain.{ChainState, refresh_cached_state_root_from_tip}
use vision_core.Mempool.{Pool, lookup_all, select_for_block}
use vision_core.Mempool.View.{Represents, ids}
use vision_core.Miner.{block_target_txs, build_candidate}
use vision_core.Miner.Manager.{
  run_candidate, complete_job, state_of, candidate_on, build_candidate_for_tip,
}
use vision_core.P2p.Sync.Host.{Host}
use vision_core.P2p.Sync.Import.{settle_extension}

module _ ⦃ext : External⦄ where
  run_candidate-stale :
      (state : TxExecutionState) (tx : Tx) (txs : List Tx)
      → tx.nonce ≢ nonce_of state tx.sender_pubkey
      → run_candidate state (tx ∷ txs) ≡ none
  unfolding run_candidate
  run_candidate-stale state tx txs h =
      let next = (simulate_tx_execution state tx).0 in
      elim (Result-cases (simulate_tx_execution state tx).1) [
        | inl (o, e) ↦ absurd (h (simulate-Effect state next tx o (ap (λ r. (next, r)) e)).nonce)
        | inr (x, e) ↦ rw (run_candidate, e) refl
      ]

  -- The oldest pending transaction comes first.
  select-oldest :
      (pool : Pool) (tx : Tx) (l : List Tx)
      → Represents pool (tx ∷ l)
      → (rest : List Tx) × (select_for_block pool block_target_txs ≡ tx ∷ rest)
  unfolding select_for_block lookup_all
  select-oldest pool tx l h =
      let held : get (canonical_tx_id tx) pool.by_id ≡ some tx =
        h.lookup (canonical_tx_id tx) ∙ ground (arith, text_eq_refl (canonical_tx_id tx)) in
      (lookup_all pool.by_id (take 199 (ids l)), rw (h.order, lookup_all, held) refl)

  module _ {Db : Type 0} (epoch_of : ℕ → ℕ) (now counter : ℕ) where
    candidate-stale :
        (g : ChainState Db) (miner_addr : Text) (tx : Tx) (txs : List Tx)
        → tx.nonce ≢ nonce_of (state_of g) tx.sender_pubkey
        → (build_candidate_for_tip epoch_of now counter g miner_addr (tx ∷ txs)).0 ≡ none
    unfolding build_candidate_for_tip complete_job candidate_on build_candidate
    candidate-stale g miner_addr tx txs h = elim (Option-cases (last? g.blocks)) [
      | inl e ↦ rw (build_candidate_for_tip, e) refl
      | inr (tip, e) ↦
          rw
            (
              build_candidate_for_tip,
              e,
              complete_job,
              run_candidate-stale (state_of g) tx (take 198 txs) h,
            )
            refl
    ]

    -- What an import does after a block without a reorganisation leaves the pool as it is, also where
    -- the block confirmed the oldest pending transaction; and while that one is at another nonce than
    -- its account's, the miner gets no candidate, whatever else is pending.
    pub synced_tx_stops_mining :
        (h : Host Db) (pool : Pool) (miner_addr : Text) (tx : Tx) (l : List Tx)
        → h.pool ≡ some pool
        → Represents pool (tx ∷ l)
        → h.node.chain.pending_reorg_recovery ≡ none
        → tx.nonce ≢ nonce_of (state_of h.node.chain) tx.sender_pubkey
        → ((settle_extension h).pool ≡ some pool)
          × ((build_candidate_for_tip epoch_of now counter
                (settle_extension h).node.chain
                miner_addr
                (select_for_block pool block_target_txs)).0
              ≡ none)
    unfolding settle_extension refresh_cached_state_root_from_tip
    synced_tx_stops_mining h pool miner_addr tx l p r n stale =
        let (rest, selected) = select-oldest pool tx l r in
        (
          rw (p, n) refl,
          rw selected (candidate-stale (settle_extension h).node.chain miner_addr tx rest stale),
        )

-- ===== src/Tests/Pending.antt =====
-- Runs of the pool of pending transactions.
use vision_core.Prelude.{◌≡◌, ◌≢◌, refl, subst, true, none, some, List, [], ◌∷◌, arith}
use vision_core.Prelude.Text.{cmp, text_eq, text_eq_iff, text_eq_refl}
use vision_core.Prelude.Bytes.{Bytes}
use vision_core.Prelude.Map.{Map, get}
use vision_core.Types.{Tx, Block}
use vision_core.Transaction.Execute.{nonce_of}
use vision_core.Transaction.{canonical_tx_id}
use vision_core.Chain.{ChainState, ReorgRecovery}
use vision_core.Mempool.{Pool, new, admit, select_for_block}
use vision_core.Mempool.Admission.{evaluate}
use vision_core.Mempool.View.{Represents}
use vision_core.Mempool.Filter.{mem}
use vision_core.Mempool.Operations.{admitted, admit-Represents}
use vision_core.Mempool.History.{start, admits, IsPool, Reach-IsPool, empty-Represents}
use vision_core.Miner.{block_target_txs}
use vision_core.Miner.Manager.{state_of, build_candidate_for_tip}
use vision_core.Miner.Manager.Stale.{synced_tx_stops_mining}
use vision_core.Node.Announced.{Services, settle_announced}
use vision_core.Node.Announced.Pending.{settle_announced-absent}
use vision_core.P2p.Sync.Host.{Host}
use vision_core.P2p.Sync.Import.{settle_extension}
use vision_core.Tests.Host.{host}
use vision_core.Tests.Chains.{child}
use vision_core.Tests.Samples.{alice, bob, payment, young_chain, young_node}

abbrev one : Pool
one = (admit new payment 0).0

abbrev higher : Tx
higher = record payment { tip = 9 }

admit-Represents_example :
    ((admit new payment 0).1 ≡ evaluate 0 [] payment)
    × Represents (admit new payment 0).0 (admitted [] payment (evaluate 0 [] payment))
admit-Represents_example = admit-Represents new [] payment 0 empty-Represents

Reach-IsPool_example : (l : List Tx) × Represents (admit one higher 0).0 l × IsPool l
Reach-IsPool_example = Reach-IsPool (admits (admits start payment 0) higher 0)

abbrev held : List Tx
held = admitted [] payment (evaluate 0 [] payment)

one_holds : Represents one held
one_holds = (admit-Represents new [] payment 0 empty-Represents).1

abbrev recovery : ReorgRecovery
recovery = record {
  displaced_txs = payment ∷ higher ∷ [];
  winning_tx_ids = canonical_tx_id payment ∷ [];
}

payment_wins : mem (canonical_tx_id payment) recovery.winning_tx_ids ≡ true
payment_wins = ground (arith, text_eq_refl (canonical_tx_id payment))

-- A pool that holds the payment alone.
abbrev single : Pool
single = record {
  by_id = (canonical_tx_id payment, payment) ∷ [];
  order = canonical_tx_id payment ∷ [];
}

single_holds : Represents single (payment ∷ [])
unfolding get
single_holds = record {
  order = refl;
  distinct = (refl, tt);
  lookup = λ id.
      ground
        (arith, text_eq_iff id (canonical_tx_id payment), text_eq_iff (canonical_tx_id payment) id);
  sorted = (tt, tt);
}

-- The chain after the payment was confirmed: its account is at the next nonce.
abbrev paid_chain : ChainState (Map Bytes)
paid_chain = record young_chain { nonces = (alice, 1) ∷ [] }

abbrev synced : Host (Map Bytes)
synced = record {
  node = record young_node { chain = paid_chain };
  pool = some single;
  peers = [];
  recovery = none;
}

payment_stale : payment.nonce ≢ nonce_of (state_of paid_chain) alice
unfolding get text_eq cmp
payment_stale = omega arith

synced_tx_stops_mining_example :
    ((settle_extension synced).pool ≡ some single)
    × ((build_candidate_for_tip
          (λ n. 0)
          1040
          7
          (settle_extension synced).node.chain
          bob
          (select_for_block single block_target_txs)).0
        ≡ none)
synced_tx_stops_mining_example =
    synced_tx_stops_mining (λ n. 0) 1040 7 synced single bob payment [] refl single_holds refl
      payment_stale

-- A block with the payment, and the record of a reorganisation that brought it.
abbrev announced : Block
announced = record child { txs = payment ∷ [] }

abbrev services : Services (Map Bytes)
services = record {
  node = record young_node {
    chain = record young_chain { pending_reorg_recovery = some recovery };
  };
  pool = one;
  recovery = record { claim = none };
  miner = none;
  relayed = [];
}

recovery_counts :
    (r : ReorgRecovery)
    → services.node.chain.pending_reorg_recovery ≡ some r
    → mem (canonical_tx_id payment) r.winning_tx_ids ≡ true
recovery_counts r e =
    let same : recovery ≡ r = cc in
    subst (λ x. mem (canonical_tx_id payment) x.winning_tx_ids ≡ true) same payment_wins

settle_announced-absent_example :
    get (canonical_tx_id payment) (settle_announced announced services).pool.by_id ≡ none
settle_announced-absent_example =
    settle_announced-absent announced services held (canonical_tx_id payment) one_holds payment_wins
      recovery_counts

-- ===== src/P2p/Sync/Watchdog/Ledger.antt =====
-- The ledger over a round of the watchdog, its conversation included.
use vision_core.Prelude.{ℕ, arith, Bool-cases, inl, inr, List, All, Result}
use vision_core.Prelude.Text.{Text}
use vision_core.External.{External}
use vision_core.Store.{Sled}
use vision_core.Chain.{VisionX}
use vision_core.Chain.Accept.{RejectReason}
use vision_core.P2p.Protocol.{ChainSummary, from_chain}
use vision_core.P2p.Sync.{
  SyncDecision, synced, behind, higher_work, should_sync_for_summary, SyncGuard, is_blocked,
  mark_started,
}
use vision_core.P2p.Sync.Host.{Host, Event, Schedule}
use vision_core.P2p.Sync.Import.Ledger.{KeepsBooks, IsFair}
use vision_core.P2p.Sync.Fetch.{Talk, waiting, failed, reached, live_sync_from_peer}
use vision_core.P2p.Sync.Fetch.Books.{Kept, IsFairEvent, live_sync_from_peer-Kept}
use vision_core.P2p.Sync.Watchdog.{
  Round, stuck, stepped, after_catchup, after_recovery, act, watchdog_step, begin_claim, end_claim,
  fail_claim,
}

module _ {Db : Type 0} where
  abbrev pub host_of : Round Db → Host Db
  host_of (stuck h guard) = h
  host_of (stepped h guard r) = h

  module _ ⦃ext : External⦄ where
    begin_claim-KeepsBooks :
        (now : ℕ) (peer : Text) (s : ChainSummary) (h : Host Db)
        → KeepsBooks h
        → KeepsBooks (begin_claim now peer s h)
    unfolding begin_claim
    begin_claim-KeepsBooks now peer s h p = ground (arith, p)

    module _ (session : Text → Host Db → Talk Db ℕ) (now ended : ℕ) (guard : SyncGuard)
        (keeps : (peer : Text) (h : Host Db) → KeepsBooks h → Kept (session peer h)) where
      catchup-KeepsBooks :
          (t : Talk Db ℕ)
          → Kept t
          → KeepsBooks (host_of (after_catchup session now ended (mark_started guard) t))
      catchup-KeepsBooks (waiting h) p = p
      catchup-KeepsBooks (failed h e) p = p
      catchup-KeepsBooks (reached n h rest) p = p.0

      recovery-KeepsBooks :
          (remote_work : ℕ) (t : Talk Db ℕ)
          → Kept t
          → KeepsBooks
              (host_of (after_recovery session now ended remote_work (mark_started guard) t))
      unfolding fail_claim end_claim
      recovery-KeepsBooks w (waiting h) p = p
      recovery-KeepsBooks w (failed h e) p = ground (arith, p)
      recovery-KeepsBooks w (reached n h rest) p = ground (arith, p.0)

      act-KeepsBooks :
          (s : ChainSummary) (d : SyncDecision) (h : Host Db)
          → KeepsBooks h
          → KeepsBooks (host_of (act session now ended s d h guard))
      unfolding act
      act-KeepsBooks s synced h p = p
      act-KeepsBooks s (behind peer_addr lag) h p =
          catchup-KeepsBooks (session peer_addr h) (keeps peer_addr h p)
      act-KeepsBooks s (higher_work peer_addr remote_work local_work) h p =
          let claimed = begin_claim now peer_addr s h in
          recovery-KeepsBooks remote_work (session peer_addr claimed)
            (keeps peer_addr claimed (begin_claim-KeepsBooks now peer_addr s h p))

      watchdog_step-KeepsBooks :
          (h : Host Db)
          → KeepsBooks h
          → KeepsBooks (host_of (watchdog_step session now ended h guard))
      unfolding watchdog_step
      watchdog_step-KeepsBooks h p = elim (Bool-cases (is_blocked now guard)) [
        | inl e ↦ rw e p
        | inr e ↦ rw e (
            act-KeepsBooks (from_chain h.node.chain)
              (should_sync_for_summary now h.peers (from_chain h.node.chain)) h p)
      ]

    module _ ⦃sled : Sled Db⦄ ⦃pow : VisionX⦄ where
      -- A round of the watchdog keeps the ledger, conversation and import included: whatever a peer
      -- sends and wherever the round ends or waits, the balances and nonces are the replay of the
      -- canonical blocks; for other tasks that keep it during each wait and at each lock.
      pub watchdog_step-HasLedger :
          (describe : RejectReason → Text) (schedule : Schedule Db)
          (opened : Result (Unit {0}) Text) (nonce now heard ended : ℕ) (events : List (Event Db))
          (guard : SyncGuard) (h : Host Db)
          → IsFair schedule
          → All IsFairEvent events
          → KeepsBooks h
          → KeepsBooks (
              host_of (
                watchdog_step
                  (λ peer met.
                    live_sync_from_peer describe schedule heard opened nonce peer met events)
                  now
                  ended
                  h
                  guard))
      watchdog_step-HasLedger describe schedule opened nonce now heard ended events guard h fair f
            p =
          watchdog_step-KeepsBooks
            (λ peer met. live_sync_from_peer describe schedule heard opened nonce peer met events)
            now ended guard
            (λ peer met q.
              live_sync_from_peer-Kept describe schedule fair heard opened nonce peer met events f
                q)
            h p

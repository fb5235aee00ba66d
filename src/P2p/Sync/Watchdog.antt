-- ===== src/P2p/Sync/Watchdog.antt =====
-- p2p/sync.rs: `watchdog_step`, one round of the watchdog, and what it makes of the recovery state.
pub mod Cooldown
pub mod Ledger
pub mod Claims
use vision_core.Prelude.{
  ℕ, Bool, true, false, ◌||◌, Option, none, some, List, [], ◌∷◌, ◌++◌, leb, ◌==◌, if◌then◌else◌,
  Result, ok, err,
}
use mathlib.Core.Option
use vision_core.Prelude.Text.{Text, text}
use vision_core.P2p.Protocol.{ChainSummary, from_chain}
use vision_core.P2p.Peers.{peer_summary}
use vision_core.Node.Recovery.{
  RecoveryState, begin_higher_work_recovery, mark_limited, mark_high_risk, clear,
}
use vision_core.P2p.Sync.{
  SyncDecision, synced, behind, higher_work, should_sync_for_summary, SyncGuard, is_blocked,
  mark_started, mark_done,
}
use vision_core.P2p.Sync.Host.{Host}
use vision_core.P2p.Sync.Fetch.{Talk, waiting, failed, reached}

-- `str::starts_with` and `str::contains`
unfoldable pub starts_with : Text → Text → Bool
starts_with [] s = true
starts_with (p ∷ ps) [] = false
starts_with (p ∷ ps) (c ∷ cs) = let rest = starts_with ps cs in if p == c then rest else false

unfoldable pub contains : Text → Text → Bool
unfolding starts_with
contains needle [] = starts_with needle []
contains needle (c ∷ cs) = starts_with needle (c ∷ cs) || contains needle cs

-- A round that waits within the conversation, and one that returns.
pub data Round (Db : Type 0) : Type 0 where
  stuck : Host Db → SyncGuard → Round Db
  stepped : Host Db → SyncGuard → Result (Unit {0}) Text → Round Db

module _ {Db : Type 0} where
  abbrev pub on_recovery : (RecoveryState → RecoveryState) → Host Db → Host Db
  on_recovery f h = record h { recovery = Option.map f h.recovery }

  -- The claim, for a peer that has a summary.
  unfoldable pub begin_claim : ℕ → Text → ChainSummary → Host Db → Host Db
  unfolding begin_higher_work_recovery
  begin_claim now peer_addr local_summary h = elim (peer_summary h.peers peer_addr) [
    | none ↦ h
    | some remote ↦
        on_recovery (λ r. begin_higher_work_recovery now r peer_addr local_summary remote) h
  ]

  -- After a conversation that succeeded.
  unfoldable pub end_claim : ℕ → ℕ → Host Db → Host Db
  unfolding clear mark_limited from_chain
  end_claim now remote_work h =
      if leb remote_work (from_chain h.node.chain).cumulative_work
      then on_recovery clear h
      else on_recovery
          (λ r. mark_limited now r (text "higher-work recovery incomplete after sync batch")) h

  -- After one that failed: the reason decides whether the claim ends or is a risk.
  unfoldable pub fail_claim : ℕ → Text → Host Db → Host Db
  unfolding contains clear mark_high_risk
  fail_claim now reason h =
      if contains (text "sync import rejected") reason
      then on_recovery clear h
      else on_recovery (λ r. mark_high_risk now r (text "higher-work recovery failed: " ++ reason))
          h

  -- `now` is the clock at the start, `ended` the clock when the conversation returns.
  module _ (session : Text → Host Db → Talk Db ℕ) (now ended : ℕ) where
    abbrev pub after_catchup : SyncGuard → Talk Db ℕ → Round Db
    after_catchup guard (waiting h) = stuck h guard
    after_catchup guard (failed h e) = stepped h (mark_done ended guard) (err e)
    after_catchup guard (reached n h rest) = stepped h (mark_done ended guard) (ok tt)

    abbrev pub after_recovery : ℕ → SyncGuard → Talk Db ℕ → Round Db
    after_recovery remote_work guard (waiting h) = stuck h guard
    after_recovery remote_work guard (failed h e) =
        stepped (fail_claim ended e h) (mark_done ended guard) (err e)
    after_recovery remote_work guard (reached n h rest) =
        stepped (end_claim ended remote_work h) (mark_done ended guard) (ok tt)

    -- What a decision leads to.
    unfoldable pub act : ChainSummary → SyncDecision → Host Db → SyncGuard → Round Db
    unfolding mark_started mark_done begin_claim end_claim fail_claim
    act local_summary synced h guard = stepped h guard (ok tt)
    act local_summary (behind peer_addr lag) h guard =
        after_catchup (mark_started guard) (session peer_addr h)
    act local_summary (higher_work peer_addr remote_work local_work) h guard =
        after_recovery remote_work (mark_started guard)
          (session peer_addr (begin_claim now peer_addr local_summary h))

    unfoldable pub watchdog_step : Host Db → SyncGuard → Round Db
    unfolding is_blocked from_chain should_sync_for_summary act
    watchdog_step h guard =
        if is_blocked now guard
        then stepped h guard (ok tt)
        else let local_summary = from_chain h.node.chain in
          act local_summary (should_sync_for_summary now h.peers local_summary) h guard

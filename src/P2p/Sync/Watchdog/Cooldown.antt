-- ===== src/P2p/Sync/Watchdog/Cooldown.antt =====
-- The guard over a round: it never stays in progress, and a conversation is followed by its pause.
use vision_core.Prelude.{
  ℕ, ◌+◌, ◌*◌, ◌≤◌, ◌<◌, ◌≡◌, refl, true, false, Result, arith, Bool-cases, inl, inr,
}
use vision_core.Prelude.Text.{Text}
use vision_core.P2p.Protocol.{ChainSummary, from_chain}
use vision_core.P2p.Sync.{
  SyncDecision, synced, behind, higher_work, should_sync_for_summary, SyncGuard, is_blocked,
  is_throttled, mark_started, mark_done, stall_override_secs,
}
use vision_core.P2p.Sync.Host.{Host}
use vision_core.P2p.Sync.Fetch.{Talk, waiting, failed, reached}
use vision_core.P2p.Sync.Watchdog.{
  Round, stuck, stepped, after_catchup, after_recovery, act, watchdog_step, begin_claim,
}

abbrev pub pause : ℕ
pause = stall_override_secs * 1000000000

-- The guard after a round that returned: as it was, or paused from the end of the conversation.
pub data IsReady {Db : Type 0} (before : SyncGuard) (ended : ℕ) : Round Db → Type 0 where
  same : (h : Host Db) (r : Result (Unit {0}) Text) → IsReady before ended (stepped h before r)
  paused :
      (h : Host Db) (guard : SyncGuard) (r : Result (Unit {0}) Text)
      → guard.in_progress ≡ false
      → ((t : ℕ) → t < ended + pause → is_blocked t guard ≡ true)
      → ((t : ℕ) → ended + pause ≤ t → is_blocked t guard ≡ false)
      → IsReady before ended (stepped h guard r)
  held :
      (h : Host Db) (guard : SyncGuard)
      → guard.in_progress ≡ true
      → IsReady before ended (stuck h guard)

module _ {Db : Type 0} where
  mark_done-paused :
      (before guard : SyncGuard) (ended : ℕ) (h : Host Db) (r : Result (Unit {0}) Text)
      → IsReady before ended (stepped h (mark_done ended guard) r)
  unfolding mark_done is_blocked is_throttled
  mark_done-paused before guard ended h r =
      paused h (mark_done ended guard) r refl (λ t lt. ground arith) (λ t le. ground arith)

  module _ (session : Text → Host Db → Talk Db ℕ) (now ended : ℕ) (guard : SyncGuard) where
    catchup-IsReady :
        (t : Talk Db ℕ)
        → IsReady guard ended (after_catchup session now ended (mark_started guard) t)
    unfolding mark_started
    catchup-IsReady (waiting h) = held h (mark_started guard) refl
    catchup-IsReady (failed h e) = mark_done-paused guard _ ended h _
    catchup-IsReady (reached n h rest) = mark_done-paused guard _ ended h _

    recovery-IsReady :
        (remote_work : ℕ) (t : Talk Db ℕ)
        → IsReady guard ended (after_recovery session now ended remote_work (mark_started guard) t)
    unfolding mark_started
    recovery-IsReady w (waiting h) = held h (mark_started guard) refl
    recovery-IsReady w (failed h e) = mark_done-paused guard _ ended _ _
    recovery-IsReady w (reached n h rest) = mark_done-paused guard _ ended _ _

    act-IsReady :
        (local_summary : ChainSummary) (d : SyncDecision) (h : Host Db)
        → IsReady guard ended (act session now ended local_summary d h guard)
    unfolding act
    act-IsReady s synced h = same h _
    act-IsReady s (behind peer_addr lag) h = catchup-IsReady (session peer_addr h)
    act-IsReady s (higher_work peer_addr remote_work local_work) h =
        recovery-IsReady remote_work (session peer_addr (begin_claim now peer_addr s h))

    pub watchdog_step-IsReady :
        (h : Host Db) → IsReady guard ended (watchdog_step session now ended h guard)
    unfolding watchdog_step
    watchdog_step-IsReady h = elim (Bool-cases (is_blocked now guard)) [
      | inl e ↦ rw e (same h _)
      | inr e ↦ rw e (
          act-IsReady (from_chain h.node.chain)
            (should_sync_for_summary now h.peers (from_chain h.node.chain)) h)
    ]

-- ===== src/P2p/Sync.antt =====
-- p2p/sync.rs: whom to synchronise with, and the guard of the watchdog. An `Instant` is a number of
-- nanoseconds. The table of peers is read once for a decision.
pub mod Host
pub mod Fetch
pub mod Import
pub mod Watchdog
use vision_core.Prelude.{
  ℕ, ◌+◌, ◌-◌, ◌*◌, Bool, true, false, ◌||◌, Option, none, some, ltb, leb, if◌then◌else◌,
}
use vision_core.Prelude.Text.{Text}
use vision_core.P2p.Protocol.{ChainSummary}
use vision_core.P2p.Peers.{PeerManager, peer_summary}
use vision_core.P2p.Peers.Select.{best_remote_height, best_sync_target, best_work_sync_target}

-- config/constants.rs
abbrev pub sync_lag_threshold : ℕ
sync_lag_threshold = 5

abbrev pub stall_override_secs : ℕ
stall_override_secs = 120

pub data SyncDecision : Type 0 where
  synced : SyncDecision
  behind : (peer_addr : Text) (lag : ℕ) → SyncDecision
  higher_work : (peer_addr : Text) (remote_work local_work : ℕ) → SyncDecision

-- A peer that is at least the threshold ahead, if one can be chosen.
abbrev pub lagging : ℕ → PeerManager → ℕ → Option (Text × ℕ)
lagging now peers local_height =
    let lag = best_remote_height now peers - local_height in
    if ltb lag sync_lag_threshold then none else elim (best_sync_target now peers local_height) [
      | none ↦ none
      | some peer_addr ↦ some (peer_addr, lag)
    ]

unfoldable pub should_sync : ℕ → PeerManager → ℕ → SyncDecision
unfolding best_remote_height best_sync_target
should_sync now peers local_height = elim (lagging now peers local_height) [
  | some (peer_addr, lag) ↦ behind peer_addr lag
  | none ↦ synced
]

-- The second half of `should_sync_for_summary`: a peer with another tip and more work.
unfoldable pub work_decision : ℕ → PeerManager → ChainSummary → SyncDecision
unfolding best_work_sync_target
work_decision now peers local_summary = elim local_summary.tip_hash [
  | none ↦ synced
  | some local_tip ↦
      elim (best_work_sync_target now peers local_tip local_summary.cumulative_work) [
        | none ↦ synced
        | some peer_addr ↦ elim (peer_summary peers peer_addr) [
          | none ↦ synced
          | some remote ↦ higher_work peer_addr remote.cumulative_work local_summary.cumulative_work
        ]
      ]
]

unfoldable pub should_sync_for_summary : ℕ → PeerManager → ChainSummary → SyncDecision
unfolding best_remote_height best_sync_target work_decision
should_sync_for_summary now peers local_summary = elim (lagging now peers local_summary.height) [
  | some (peer_addr, lag) ↦ behind peer_addr lag
  | none ↦ work_decision now peers local_summary
]

pub record SyncGuard : Type 0 where
  pub in_progress : Bool
  pub cooldown_until : Option ℕ

abbrev pub new : SyncGuard
new = record { in_progress = false; cooldown_until = none }

unfoldable pub is_throttled : ℕ → SyncGuard → Bool
is_throttled now guard = elim guard.cooldown_until [ none ↦ false | some t ↦ ltb now t ]

unfoldable pub is_blocked : ℕ → SyncGuard → Bool
unfolding is_throttled
is_blocked now guard = guard.in_progress || is_throttled now guard

unfoldable pub mark_started : SyncGuard → SyncGuard
mark_started guard = record guard { in_progress = true }

unfoldable pub mark_done : ℕ → SyncGuard → SyncGuard
mark_done now guard = record {
  in_progress = false;
  cooldown_until = some (now + stall_override_secs * 1000000000);
}

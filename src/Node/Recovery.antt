-- ===== src/Node/Recovery.antt =====
-- node/recovery.rs: the claim of a peer to more work, while it is being looked into.
use vision_core.Prelude.{
  ℕ, Bool, true, false, Option, none, some, leb, if◌then◌else◌, is_some, unwrap_or,
}
use mathlib.Core.Option
use vision_core.Prelude.Text.{Text, text}
use vision_core.P2p.Protocol.{ChainSummary}

pub data RecoveryMode : Type 0 where
  normal higher_work_recovery recovery_limited high_risk_fork : RecoveryMode

unfoldable pub as_str : RecoveryMode → Text
as_str normal = text "normal"
as_str higher_work_recovery = text "higher_work_recovery"
as_str recovery_limited = text "recovery_limited"
as_str high_risk_fork = text "high_risk_fork"

pub record RecoveryClaim : Type 0 where
  pub mode : RecoveryMode
  pub peer_addr : Text
  pub local_summary : ChainSummary
  pub remote_summary : ChainSummary
  pub reason : Text
  pub updated_at : ℕ

-- The state behind the lock.
pub record RecoveryState : Type 0 where
  pub claim : Option RecoveryClaim

abbrev pub new : RecoveryState
new = record { claim = none }

unfoldable pub begin_higher_work_recovery :
    ℕ → RecoveryState → Text → ChainSummary → ChainSummary → RecoveryState
begin_higher_work_recovery now r peer_addr local_summary remote_summary = record {
  claim = some (record {
    mode = higher_work_recovery;
    peer_addr = peer_addr;
    local_summary = local_summary;
    remote_summary = remote_summary;
    reason = text "peer advertised strictly greater cumulative work";
    updated_at = now;
  });
}

abbrev pub remark : ℕ → RecoveryMode → Text → RecoveryClaim → RecoveryClaim
remark now mode reason claim = record claim { mode = mode; reason = reason; updated_at = now }

unfoldable pub mark_limited : ℕ → RecoveryState → Text → RecoveryState
mark_limited now r reason = record {
  claim = Option.map (remark now recovery_limited reason) r.claim;
}

unfoldable pub mark_high_risk : ℕ → RecoveryState → Text → RecoveryState
mark_high_risk now r reason = record {
  claim = Option.map (remark now high_risk_fork reason) r.claim;
}

unfoldable pub clear : RecoveryState → RecoveryState
clear r = record { claim = none }

-- The local chain has at least the work of the claim.
abbrev pub is_satisfied : ChainSummary → RecoveryClaim → Bool
is_satisfied local_summary claim =
    leb claim.remote_summary.cumulative_work local_summary.cumulative_work

unfoldable pub clear_if_local_satisfies_claim : RecoveryState → ChainSummary → RecoveryState × Bool
clear_if_local_satisfies_claim r local_summary = elim r.claim [
  | none ↦ (r, false)
  | some claim ↦
      if is_satisfied local_summary claim then (record { claim = none }, true) else (r, false)
]

unfoldable pub should_pause_mining : RecoveryState → Bool
should_pause_mining r = is_some r.claim

abbrev pub mode_of : RecoveryClaim → RecoveryMode
mode_of claim = claim.mode

unfoldable pub mode : RecoveryState → RecoveryMode
mode r = unwrap_or (Option.map mode_of r.claim) normal

pub record RecoveryStatusSnapshot : Type 0 where
  pub state : Text
  pub peer_addr : Option Text
  pub local_height : Option ℕ
  pub local_work : Option ℕ
  pub local_tip_hash : Option Text
  pub remote_height : Option ℕ
  pub remote_work : Option ℕ
  pub remote_tip_hash : Option Text
  pub reason : Option Text

unfoldable pub snapshot : RecoveryState → RecoveryStatusSnapshot
unfolding as_str
snapshot r = elim r.claim [
  | some claim ↦ record {
    state = as_str claim.mode;
    peer_addr = some claim.peer_addr;
    local_height = some claim.local_summary.height;
    local_work = some claim.local_summary.cumulative_work;
    local_tip_hash = claim.local_summary.tip_hash;
    remote_height = some claim.remote_summary.height;
    remote_work = some claim.remote_summary.cumulative_work;
    remote_tip_hash = claim.remote_summary.tip_hash;
    reason = some claim.reason;
  }
  | none ↦ record {
    state = as_str normal;
    peer_addr = none;
    local_height = none;
    local_work = none;
    local_tip_hash = none;
    remote_height = none;
    remote_work = none;
    remote_tip_hash = none;
    reason = none;
  }
]

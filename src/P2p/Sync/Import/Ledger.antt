-- ===== src/P2p/Sync/Import/Ledger.antt =====
-- The ledger under an import, whatever the peer sends and however the other tasks interleave.
use vision_core.Prelude.{
  ℕ, ◌+◌, some, List, [], ◌∷◌, if◌then◌else◌, is_some, Result-cases, Bool-cases, inl, inr, refl,
}
use vision_core.Prelude.Text.{Text}
use vision_core.Types.{Block, hash}
use vision_core.External.{External}
use vision_core.Store.{Sled}
use vision_core.Chain.{VisionX, block_by_hash, refresh_cached_state_root_from_tip}
use vision_core.Chain.Accept.{
  AcceptResult, RejectReason, canon_extension, side_chain, stored_orphan, rejected,
}
use vision_core.Chain.Apply.{apply_block}
use vision_core.Chain.Step.Ledger.{HasLedger, same_ledger, apply_block-HasLedger}
use vision_core.P2p.Sync.Host.{Host, Schedule}
use vision_core.P2p.Sync.Import.{settle_extension, settle, import_block, import_fetched_blocks}

module _ {Db : Type 0} ⦃ext : External⦄ where
  -- The chain of a host has its ledger.
  abbrev pub KeepsBooks : Host Db → Type 0
  KeepsBooks h = HasLedger h.node.chain

  -- The other tasks keep it at every lock.
  abbrev pub IsFair : Schedule Db → Type 0
  IsFair schedule = (k : ℕ) (h : Host Db) → KeepsBooks h → KeepsBooks (schedule.others k h)

  settle_extension-KeepsBooks : (h : Host Db) → KeepsBooks h → KeepsBooks (settle_extension h)
  unfolding settle_extension refresh_cached_state_root_from_tip
  settle_extension-KeepsBooks h p = same_ledger h.node.chain _ refl refl p

  module _ ⦃sled : Sled Db⦄ ⦃pow : VisionX⦄ (describe : RejectReason → Text)
      (schedule : Schedule Db) (fair : IsFair schedule) where
    settle-KeepsBooks :
        (k : ℕ) (h : Host Db) (r : AcceptResult)
        → KeepsBooks h
        → KeepsBooks (settle describe schedule k h r).0
    unfolding settle
    settle-KeepsBooks k h (canon_extension height) p =
        settle_extension-KeepsBooks (schedule.others (k + 1) h) (fair (k + 1) h p)
    settle-KeepsBooks k h (side_chain height) p = p
    settle-KeepsBooks k h (stored_orphan block_hash) p = p
    settle-KeepsBooks k h (rejected reason) p = p

    import_block-KeepsBooks :
        (k : ℕ) (peer : Text) (block : Block) (h : Host Db)
        → KeepsBooks h
        → KeepsBooks (import_block describe schedule k peer block h).0
    unfolding import_block
    import_block-KeepsBooks k peer block h p =
        let locked = schedule.others k h in
        let applied = apply_block (schedule.clock k) locked.node block (some peer) in
        let kept =
          apply_block-HasLedger (schedule.clock k) locked.node block (some peer) (fair k h p) in
        elim (Bool-cases (is_some (block_by_hash locked.node.chain (hash block)))) [
          | inl e ↦ rw e (fair k h p)
          | inr e ↦ rw e (settle-KeepsBooks k (record locked { node = applied.0 }) applied.1 kept)
        ]

    -- An import of fetched blocks keeps the ledger: whatever blocks a peer sent, and whether the
    -- import succeeds or fails on the way, the balances and nonces are the replay of the canonical
    -- blocks, for other tasks that keep it at each lock.
    pub import_fetched_blocks-HasLedger :
        (k : ℕ) (peer : Text) (blocks : List Block) (imported : ℕ) (h : Host Db)
        → HasLedger h.node.chain
        → HasLedger (import_fetched_blocks describe schedule k peer blocks imported h).0.node.chain
    unfolding import_fetched_blocks
    import_fetched_blocks-HasLedger k peer [] imported h p = p
    import_fetched_blocks-HasLedger k peer (block ∷ blocks) imported h p =
        let step = import_block describe schedule k peer block h in
        let kept = import_block-KeepsBooks k peer block h p in
        elim (Result-cases step.1) [
          | inl (added, e) ↦
              rw (import_fetched_blocks, e)
                (import_fetched_blocks-HasLedger (k + 2) peer blocks
                  (if added then imported + 1 else imported) step.0 kept)
          | inr (x, e) ↦ rw (import_fetched_blocks, e) kept
        ]

-- ===== src/Chain/Step.antt =====
-- Block acceptance as a relation between the state before, the state after and the result: what each
-- kind of step needs and does. The invariants of the chain are proved over the relation.

pub mod Refines
pub mod Ledger
pub mod Frame
pub mod Choice
use vision_core.Prelude.{
  ℕ, ◌≡◌, refl, ◌⊎◌, inl, inr, Bool, true, false, Option, none, some, List, [], ◌∷◌, ltb, ◌==◌,
  if◌then◌else◌, Result, ok, err, Bool-cases, Option-cases, Result-cases, arith,
}
use vision_core.Prelude.Text.{Text, text_eq}
use vision_core.Types.{Block, hash}
use vision_core.External.{External}
use vision_core.Transaction.Execute.{TxExecutionState}
use vision_core.Store.{Sled, store_block, persist_canonical_extension}
use vision_core.Chain.{ChainState, VisionX, ReorgRecovery, tip_hash, block_by_hash}
use vision_core.Chain.Orphan.{add_orphan}
use vision_core.Chain.Reorg.{try_reorg, ReorgAbort}
use vision_core.Chain.Snapshot.{maybe_save_snapshot}
use vision_core.Chain.Accept.{
  RejectReason, AcceptResult, canon_extension, side_chain, stored_orphan, rejected, genesis_hash,
  check_structure, validate, accept_genesis, extend_tip, add_side, choose_chain, integrate,
  accept_child, accept_above, accept_one, push_canonical, record_side, candidate_cw, work_of,
  parent_known,
}

module _ {Db : Type 0} ⦃ext : External⦄ ⦃sled : Sled Db⦄ ⦃pow : VisionX⦄ where
  -- The chain with a block behind its tip, before the snapshot.
  abbrev pub extended : ChainState Db → Block → TxExecutionState → Db → ChainState Db
  extended g blk state db =
      push_canonical (record g { balances = state.balances; nonces = state.nonces; db = db }) blk
        (candidate_cw g blk)

  -- The checks that every block above height 0 passes before it changes the chain.
  pub record IsValid (now : ℕ) (g : ChainState Db) (blk : Block) (state : TxExecutionState)
      : Type 0 where
    pub structure : check_structure g blk ≡ ok tt
    pub above : (blk.header.number == 0) ≡ false
    pub known : parent_known now g blk ≡ true
    pub parent : Block
    pub resolved : block_by_hash g blk.header.parent_hash ≡ some parent
    pub valid : validate now g parent blk ≡ ok state

  pub data Step (now : ℕ) (g : ChainState Db) (blk : Block) (source_peer : Text)
      : ChainState Db → AcceptResult → Type 0 where
    reject : (r : RejectReason) → Step now g blk source_peer g (rejected r)
    wait :
        check_structure g blk ≡ ok tt
        → (blk.header.number == 0) ≡ false
        → parent_known now g blk ≡ false
        → Step now g blk source_peer (add_orphan now g blk source_peer) (stored_orphan (hash blk))
    genesis :
        (db : Db)
        → check_structure g blk ≡ ok tt
        → (blk.header.number == 0) ≡ true
        → g.blocks ≡ []
        → text_eq (hash blk) genesis_hash ≡ true
        → persist_canonical_extension g.db blk ≡ ok db
        → Step now g blk source_peer
            (push_canonical (record g { db = db }) blk blk.header.difficulty)
            (canon_extension 0)
    extend :
        (state : TxExecutionState) (db : Db)
        → IsValid now g blk state
        → text_eq blk.header.parent_hash (tip_hash g) ≡ true
        → persist_canonical_extension g.db blk ≡ ok db
        → Step now g blk source_peer
            (record (extended g blk state db) {
              db = (maybe_save_snapshot (extended g blk state db)).0;
            })
            (canon_extension blk.header.number)
    side :
        (state : TxExecutionState) (db : Db)
        → IsValid now g blk state
        → text_eq blk.header.parent_hash (tip_hash g) ≡ false
        → store_block g.db blk ≡ ok db
        → Step now g blk source_peer (record_side g blk db) (side_chain blk.header.number)
    switch :
        (state : TxExecutionState) (db : Db) (next : ChainState Db) (recovery : ReorgRecovery)
        → IsValid now g blk state
        → text_eq blk.header.parent_hash (tip_hash g) ≡ false
        → store_block g.db blk ≡ ok db
        → ltb (work_of g (tip_hash g)) (candidate_cw g blk) ≡ true
        → try_reorg (record_side g blk db) blk ≡ ok (next, recovery)
        → Step now g blk source_peer
            (record next { pending_reorg_recovery = some recovery })
            (canon_extension blk.header.number)

-- ===== src/Chain/Reorg/Shape.antt =====
-- What a reorganisation that succeeds has checked, and what it makes of each part of the chain.
use vision_core.Prelude.{
  ℕ, ◌+◌, ◌≡◌, refl, ◌∙◌, sym, ap, subst, some, List, [], ◌∷◌, ◌++◌, take, drop, head?, ok,
  ok-injective, bind-ok, ensure-ok, ok_or-ok, map_err-ok, true,
}
use mathlib.Core.List.{append_assoc}
use vision_core.Prelude.Text.{Text, text_eq}
use vision_core.Prelude.Map.{get}
use vision_core.Types.{Block, hash}
use vision_core.External.{External}
use vision_core.Transaction.Execute.{TxExecutionState}
use vision_core.StateRoot.{compute_state_root}
use vision_core.Store.{Sled, persist_canonical_reorg}
use vision_core.Chain.{ChainState, ReorgRecovery, current_height}
use vision_core.Chain.Replay.{check_canonical_state_at_height, reconstruct_branch_state}
use vision_core.Chain.Reorg.{
  Branch, demote, promote, switch_branch, validate_branch, collect_new_segment, reorg_recovery,
  try_reorg,
}

module _ {Db : Type 0} where
  demote-orphan_pool :
      (bs : List Block) (g : ChainState Db) → (demote g bs).orphan_pool ≡ g.orphan_pool
  unfolding demote
  demote-orphan_pool [] g = refl
  demote-orphan_pool (b ∷ bs) g = demote-orphan_pool bs _

  promote-orphan_pool :
      (bs : List Block) (cw : ℕ) (g : ChainState Db) → (promote cw g bs).orphan_pool ≡ g.orphan_pool
  unfolding promote
  promote-orphan_pool [] cw g = refl
  promote-orphan_pool (b ∷ bs) cw g = promote-orphan_pool bs _ _

  promote-blocks :
      (bs : List Block) (cw : ℕ) (g : ChainState Db) → (promote cw g bs).blocks ≡ g.blocks ++ bs
  unfolding promote
  promote-blocks [] cw g = sym (append_nil g.blocks)
    where
      append_nil : (xs : List Block) → xs ++ [] ≡ xs
      append_nil [] = refl
      append_nil (x ∷ xs) = ap (◌∷◌ x) (append_nil xs)
  promote-blocks (b ∷ bs) cw g = promote-blocks bs _ _ ∙ append_assoc g.blocks (b ∷ []) bs

  pub switch_branch-orphan_pool :
      (g : ChainState Db) (c : Text) (h : ℕ) (bs : List Block)
      → (switch_branch g c h bs).orphan_pool ≡ g.orphan_pool
  unfolding switch_branch
  switch_branch-orphan_pool g c h bs =
      promote-orphan_pool bs _ _ ∙ demote-orphan_pool (drop (h + 1) g.blocks) g

  pub switch_branch-blocks :
      (g : ChainState Db) (c : Text) (h : ℕ) (bs : List Block)
      → (switch_branch g c h bs).blocks ≡ take (h + 1) g.blocks ++ bs
  unfolding switch_branch
  switch_branch-blocks g c h bs = promote-blocks bs _ _

module _ {Db : Type 0} ⦃ext : External⦄ where
  -- What `validate_branch` has checked of the branch that it returns.
  pub record IsBranch (g : ChainState Db) (tip : Block) (b : Branch) : Type 0 where
    pub segment : collect_new_segment g (hash tip) ≡ b.segment
    pub oldest : Block
    pub first : head? b.segment ≡ some oldest
    pub parent : oldest.header.parent_hash ≡ b.common_hash
    pub canonical : get b.common_hash g.canon_index ≡ some b.common_height
    pub ancestor : TxExecutionState
    pub replayed : check_canonical_state_at_height g b.common_height ≡ ok ancestor
    pub branch : reconstruct_branch_state b.common_hash ancestor b.segment ≡ ok b.replay_state
    pub root : compute_state_root b.replay_state.balances b.replay_state.nonces ≡ ok b.state_root
    pub root_eq : text_eq b.state_root tip.header.state_root ≡ true

  pub validate_branch-IsBranch :
      (g : ChainState Db) (tip : Block) (b : Branch)
      → validate_branch g tip ≡ ok b
      → IsBranch g tip b
  unfolding validate_branch
  validate_branch-IsBranch g tip b e =
      let (oldest, e1, r1) = bind-ok _ _ _ e in
      let (height, e2, r2) = bind-ok _ _ _ r1 in
      let (ancestor, e3, r3) = bind-ok _ _ _ r2 in
      let (replay_state, e4, r4) = bind-ok _ _ _ r3 in
      let (root, e5, r5) = bind-ok _ _ _ r4 in
      let (u, e6, r6) = bind-ok _ _ _ r5 in
      subst (IsBranch g tip) (ok-injective r6) (record {
        segment = refl;
        oldest = oldest;
        first = ok_or-ok _ _ _ e1;
        parent = refl;
        canonical = ok_or-ok _ _ _ e2;
        ancestor = ancestor;
        replayed = map_err-ok _ _ _ e3;
        branch = map_err-ok _ _ _ e4;
        root = map_err-ok _ _ _ e5;
        root_eq = ensure-ok _ _ _ e6;
      })

  module _ ⦃sled : Sled Db⦄ where
    -- A reorganisation that succeeds.
    pub record Switched (g : ChainState Db) (tip : Block) (next : ChainState Db)
        (recovery : ReorgRecovery) : Type 0 where
      pub branch : Branch
      pub valid : validate_branch g tip ≡ ok branch
      pub db : Db
      pub persisted :
          persist_canonical_reorg g.db
            (switch_branch g branch.common_hash branch.common_height branch.segment).blocks
            (current_height g)
          ≡ ok db
      pub recovery_eq : recovery ≡ reorg_recovery g branch.common_height branch.segment
      pub next_eq :
          next ≡ record (switch_branch g branch.common_hash branch.common_height branch.segment) {
            balances = branch.replay_state.balances;
            nonces = branch.replay_state.nonces;
            cached_state_root = some (tip.header.number, branch.state_root);
            db = db;
          }

    pub try_reorg-Switched :
        (g : ChainState Db) (tip : Block) (next : ChainState Db) (recovery : ReorgRecovery)
        → try_reorg g tip ≡ ok (next, recovery)
        → Switched g tip next recovery
    unfolding try_reorg
    try_reorg-Switched g tip next recovery e =
        let (b, eb, e1) = bind-ok _ _ _ e in
        let (db, ed, e2) = bind-ok _ _ _ e1 in
        record {
          branch = b;
          valid = eb;
          db = db;
          persisted = map_err-ok _ _ _ ed;
          recovery_eq = sym (ap (λ p. p.1) (ok-injective e2));
          next_eq = sym (ap (λ p. p.0) (ok-injective e2));
        }

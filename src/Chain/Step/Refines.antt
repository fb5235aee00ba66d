-- ===== src/Chain/Step/Refines.antt =====
-- `accept_one` takes a step of the relation, whatever the block and the chain.
use vision_core.Prelude.{
  ℕ, ◌≡◌, refl, ◌⊎◌, inl, inr, true, false, List, [], ◌∷◌, ltb, ◌==◌, ok, Bool-cases, Option-cases,
  Result-cases,
}
use vision_core.Prelude.Text.{Text, text_eq}
use vision_core.Types.{Block, hash}
use vision_core.External.{External}
use vision_core.Transaction.Execute.{TxExecutionState}
use vision_core.Store.{Sled, store_block, persist_canonical_extension}
use vision_core.Chain.{ChainState, VisionX, tip_hash, block_by_hash}
use vision_core.Chain.Reorg.{try_reorg}
use vision_core.Chain.Accept.{
  AcceptResult, genesis_hash, genesis_hash_mismatch, genesis_already_applied, persistence_failed,
  panic_parent_absent, check_structure, validate, accept_genesis, extend_tip, add_side,
  choose_chain, integrate, accept_child, accept_above, accept_one, record_side, candidate_cw,
  work_of, parent_known,
}
use vision_core.Chain.Step.{IsValid, Step, reject, wait, genesis, extend, side, switch}

List-cases {ℓ} : {A : Type ℓ} (l : List A) → (l ≡ []) ⊎ ((x : A) × (xs : List A) × (l ≡ x ∷ xs))
List-cases [] = inl refl
List-cases (x ∷ xs) = inr (x, xs, refl)

module _ {Db : Type 0} ⦃ext : External⦄ ⦃sled : Sled Db⦄ ⦃pow : VisionX⦄ (now : ℕ)
    (g : ChainState Db) (blk : Block) (source_peer : Text) where
  abbrev Steps : ChainState Db × AcceptResult → Type 0
  Steps p = Step now g blk source_peer p.0 p.1

  genesis-Step :
      check_structure g blk ≡ ok tt → (blk.header.number == 0) ≡ true → Steps (accept_genesis g blk)
  unfolding accept_genesis
  genesis-Step s n = elim (Bool-cases (text_eq (hash blk) genesis_hash)) [
    | inr e ↦ rw e (reject genesis_hash_mismatch)
    | inl e ↦ rw e (elim (List-cases g.blocks) [
      | inr (b, bs, eb) ↦ simp eb (reject genesis_already_applied)
      | inl eb ↦ simp eb (elim (Result-cases (persist_canonical_extension g.db blk)) [
        | inl (db, ed) ↦ rw ed (genesis db s n eb e ed)
        | inr (x, ed) ↦ rw ed (reject (persistence_failed x))
      ])
    ])
  ]

  extend_tip-Step :
      (state : TxExecutionState)
      → IsValid now g blk state
      → text_eq blk.header.parent_hash (tip_hash g) ≡ true
      → Steps (extend_tip g blk state)
  unfolding extend_tip
  extend_tip-Step state v t = elim (Result-cases (persist_canonical_extension g.db blk)) [
    | inl (db, ed) ↦ rw (ed, extend_tip) (extend state db v t ed)
    | inr (x, ed) ↦ rw (ed, extend_tip) (reject (persistence_failed x))
  ]

  choose_chain-Step :
      (state : TxExecutionState) (db : Db)
      → IsValid now g blk state
      → text_eq blk.header.parent_hash (tip_hash g) ≡ false
      → store_block g.db blk ≡ ok db
      → Steps (choose_chain g (record_side g blk db) blk)
  unfolding choose_chain
  choose_chain-Step state db v t ed =
      elim (Bool-cases (ltb (work_of g (tip_hash g)) (candidate_cw g blk))) [
        | inr less ↦ rw less (side state db v t ed)
        | inl more ↦ rw more (elim (Result-cases (try_reorg (record_side g blk db) blk)) [
          | inl ((next, recovery), er) ↦ rw er (switch state db next recovery v t ed more er)
          | inr (x, er) ↦ rw er (side state db v t ed)
        ])
      ]

  add_side-Step :
      (state : TxExecutionState)
      → IsValid now g blk state
      → text_eq blk.header.parent_hash (tip_hash g) ≡ false
      → Steps (add_side g blk)
  unfolding add_side
  add_side-Step state v t = elim (Result-cases (store_block g.db blk)) [
    | inl (db, ed) ↦ rw (ed, add_side) (choose_chain-Step state db v t ed)
    | inr (x, ed) ↦ rw (ed, add_side) (reject (persistence_failed x))
  ]

  integrate-Step :
      (state : TxExecutionState) → IsValid now g blk state → Steps (integrate g blk state)
  unfolding integrate
  integrate-Step state v = elim (Bool-cases (text_eq blk.header.parent_hash (tip_hash g))) [
    | inl e ↦ rw e (extend_tip-Step state v e)
    | inr e ↦ rw e (add_side-Step state v e)
  ]

  accept_child-Step :
      check_structure g blk ≡ ok tt
      → (blk.header.number == 0) ≡ false
      → parent_known now g blk ≡ true
      → Steps (accept_child now g blk)
  unfolding accept_child
  accept_child-Step s n k = elim (Option-cases (block_by_hash g blk.header.parent_hash)) [
    | inl e ↦ rw (e, accept_child) (reject panic_parent_absent)
    | inr (parent, e) ↦
        rw (e, accept_child)
          (elim (Result-cases (validate now g parent blk)) [
            | inl (state, ev) ↦ rw ev (
                integrate-Step state (record {
                  structure = s;
                  above = n;
                  known = k;
                  parent = parent;
                  resolved = e;
                  valid = ev;
                }))
            | inr (r, ev) ↦ rw ev (reject r)
          ])
  ]

  accept_above-Step :
      check_structure g blk ≡ ok tt
      → (blk.header.number == 0) ≡ false
      → Steps (accept_above now g blk source_peer)
  unfolding accept_above
  accept_above-Step s n = elim (Bool-cases (parent_known now g blk)) [
    | inl e ↦ rw e (accept_child-Step s n e)
    | inr e ↦ rw e (wait s n e)
  ]

  pub accept_one-Step : Steps (accept_one now g blk source_peer)
  unfolding accept_one
  accept_one-Step = elim (Result-cases (check_structure g blk)) [
    | inr (r, e) ↦ rw (e, accept_one) (reject r)
    | inl (u, e) ↦
        rw (e, accept_one)
          (elim (Bool-cases (blk.header.number == 0)) [
            | inl n ↦ rw n (genesis-Step e n)
            | inr n ↦ rw n (accept_above-Step e n)
          ])
  ]

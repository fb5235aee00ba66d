-- ===== src/Chain/Replay/Laws.antt =====
-- Replays compose, and the checked replays of a reorganisation agree with the plain one.
use vision_core.Prelude.{
  ◌≡◌, refl, List, [], ◌∷◌, ◌++◌, ok, ◌>>=◌, Result-cases, bind-ok, then-ok, inl, inr, arith,
}
use vision_core.Prelude.Text.{Text}
use vision_core.Types.{Block, hash}
use vision_core.External.{External}
use vision_core.Transaction.Execute.{TxExecutionState}
use vision_core.Chain.Replay.{
  run_block, run_blocks, check_block, check_blocks, reconstruct_branch_state,
}

module _ ⦃ext : External⦄ where
  -- The replay of a chain in two parts.
  pub run_blocks-append :
      (xs ys : List Block) (s : TxExecutionState)
      → run_blocks s (xs ++ ys) ≡ (run_blocks s xs >>= λ t. run_blocks t ys)
  unfolding run_blocks
  run_blocks-append [] ys s = refl
  run_blocks-append (x ∷ xs) ys s = elim (Result-cases (run_block s x)) [
    | inl (t, e) ↦ rw (e, run_blocks) (run_blocks-append xs ys t)
    | inr (r, e) ↦ rw (e, run_blocks) refl
  ]

  check_block-run :
      (s t : TxExecutionState) (b : Block) → check_block s b ≡ ok t → run_block s b ≡ ok t
  unfolding check_block
  check_block-run s t b e = ground arith

  -- A chain that passes the checked replay has the same replay without the root checks.
  pub check_blocks-run :
      (xs : List Block) (s t : TxExecutionState) → check_blocks s xs ≡ ok t → run_blocks s xs ≡ ok t
  unfolding check_blocks run_blocks
  check_blocks-run [] s t e = e
  check_blocks-run (x ∷ xs) s t e =
      let (next, e1, r1) = bind-ok _ _ _ e in
      rw (check_block-run s next x e1, run_blocks) (check_blocks-run xs next t r1)

  pub branch-run :
      (xs : List Block) (p : Text) (s t : TxExecutionState)
      → reconstruct_branch_state p s xs ≡ ok t
      → run_blocks s xs ≡ ok t
  unfolding reconstruct_branch_state run_blocks
  branch-run [] p s t e = e
  branch-run (x ∷ xs) p s t e =
      let (u, r0) = then-ok _ _ _ e in
      let (next, e1, r1) =
        bind-ok (check_block s x) (λ next. reconstruct_branch_state (hash x) next xs) t r0 in
      rw (check_block-run s next x e1, run_blocks) (branch-run xs (hash x) next t r1)

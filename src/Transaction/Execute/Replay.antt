-- ===== src/Transaction/Execute/Replay.antt =====
-- Nonces: replay protection over any later history (types/transaction.rs).
use vision_core.Prelude.{◌≤◌, ◌≡◌, ◌≢◌, List, [], ◌∷◌, ok, err, arith, inl, inr}
use vision_core.Prelude.Text.{Text, text_eq_iff}
use vision_core.Prelude.Map.Laws.{get-insert}
use vision_core.Types.{Tx}
use vision_core.External.{External}
use vision_core.Transaction.Execute.{
  TxExecutionState, TxExecutionOutcome, nonce_mismatch, Transfer, nonce_of, prepare_transfer,
  commit_transfer, simulate_tx_execution, simulate_all,
}
use vision_core.Transaction.Execute.Effect.{
  IsPrepared, prepare_transfer-IsPrepared, simulate-prepared, simulate-Effect, simulate-state,
}

module _ ⦃ext : External⦄ where
  -- A nonce never falls, whatever the transaction and its result.
  pub nonce-le-simulate :
      (s : TxExecutionState) (tx : Tx) (a : Text)
      → nonce_of s a ≤ nonce_of (simulate_tx_execution s tx).0 a
  unfolding commit_transfer
  nonce-le-simulate s tx a = elim (simulate-state s tx) [
    | inl e ↦ rw e (omega arith)
    | inr (t, p, e) ↦ rw e (
        simp get-insert (ground (arith, p.nonce, p.next, p.sender, text_eq_iff t.outcome.sender a)))
  ]

  pub nonce-le-simulate_all :
      (s : TxExecutionState) (txs : List Tx) (a : Text)
      → nonce_of s a ≤ nonce_of (simulate_all s txs) a
  unfolding simulate_all
  nonce-le-simulate_all s [] a = omega arith
  nonce-le-simulate_all s (tx ∷ txs) a =
      omega (
        arith,
        nonce-le-simulate s tx a,
        nonce-le-simulate_all (simulate_tx_execution s tx).0 txs a,
      )

  -- The nonce is the first check that looks at the state.
  pub simulate-nonce_mismatch :
      (s s' : TxExecutionState) (tx : Tx) (t : Transfer)
      → IsPrepared s tx t
      → tx.nonce ≢ nonce_of s' tx.sender_pubkey
      → simulate_tx_execution s' tx
        ≡ (s', err (nonce_mismatch (nonce_of s' tx.sender_pubkey) tx.nonce))
  unfolding simulate_tx_execution prepare_transfer
  simulate-nonce_mismatch s s' tx t p h = ground (arith, p.cash, p.valid)

  -- A transaction that has been executed is refused in every later state, whatever transactions
  -- run in between: with a nonce mismatch, and without a change of the state.
  pub simulate_replay :
      (s s' : TxExecutionState) (tx : Tx) (o : TxExecutionOutcome) (txs : List Tx)
      → simulate_tx_execution s tx ≡ (s', ok o)
      → simulate_tx_execution (simulate_all s' txs) tx ≡ (
        simulate_all s' txs,
        err (nonce_mismatch (nonce_of (simulate_all s' txs) tx.sender_pubkey) tx.nonce),
      )
  simulate_replay s s' tx o txs h =
      let (t, e, es, eo) = simulate-prepared s s' tx o h in
      simulate-nonce_mismatch s _ tx t (prepare_transfer-IsPrepared s tx t e) (
        omega (
          arith,
          nonce-le-simulate_all s' txs tx.sender_pubkey,
          (simulate-Effect s s' tx o h).next,
        ))

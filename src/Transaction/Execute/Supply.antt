-- ===== src/Transaction/Execute/Supply.antt =====
-- Conservation of the supply, and the ranges of balances and nonces, over any transactions.
use mathlib.Core.Path.{subst₂}
use vision_core.Prelude.{sym, ◌+◌, ◌≤◌, ◌<◌, ◌≡◌, List, [], ◌∷◌, ok, arith, inl, inr}
use vision_core.Prelude.Text.{Text, text_eq_iff}
use vision_core.Prelude.Bytes.{u64_mod, u128_mod}
use vision_core.Prelude.Map.{insert, IsSorted}
use vision_core.Prelude.Map.Laws.{get-insert, insert-IsSorted}
use vision_core.Prelude.Map.Total.{total, total-insert}
use vision_core.Types.{Tx}
use vision_core.External.{External}
use vision_core.Transaction.Execute.{
  TxExecutionState, TxExecutionOutcome, Transfer, balance_of, nonce_of, commit_transfer,
  simulate_tx_execution, simulate_all,
}
use vision_core.Transaction.Execute.Effect.{
  IsPrepared, prepare_transfer-IsPrepared, simulate-prepared, simulate-state,
  validate_cash-distinct,
}

-- The maps are ordered as a B-tree orders them, and their values fit `u128` and `u64`.
pub record IsWellFormed (s : TxExecutionState) : Type 0 where
  pub balances_sorted : IsSorted s.balances
  pub nonces_sorted : IsSorted s.nonces
  pub balances_fit : (a : Text) → balance_of s a < u128_mod
  pub nonces_fit : (a : Text) → nonce_of s a < u64_mod

module _ ⦃ext : External⦄ where
  commit-total :
      (s : TxExecutionState) (tx : Tx) (t : Transfer)
      → IsSorted s.balances
      → IsPrepared s tx t
      → total (commit_transfer s t).balances + t.outcome.charged_fee ≡ total s.balances
  unfolding commit_transfer
  commit-total s tx t w p = ground (
    arith,
    validate_cash-distinct tx _ p.cash p.valid p.decoded,
    get-insert t.outcome.sender t.outcome.recipient t.sender_balance s.balances,
    text_eq_iff t.outcome.sender t.outcome.recipient,
    total-insert t.outcome.sender t.sender_balance s.balances w,
    total-insert t.outcome.recipient t.recipient_balance
        (insert t.outcome.sender t.sender_balance s.balances)
        (insert-IsSorted t.outcome.sender t.sender_balance s.balances w),
  )

  -- A transfer that succeeds takes exactly its fee out of the sum of all balances: nothing is minted
  -- and nothing else is lost, for balances ordered as a B-tree orders them.
  pub total-simulate :
      (s s' : TxExecutionState) (tx : Tx) (o : TxExecutionOutcome)
      → IsSorted s.balances
      → simulate_tx_execution s tx ≡ (s', ok o)
      → total s'.balances + o.charged_fee ≡ total s.balances
  total-simulate s s' tx o w h =
      let (t, e, es, eo) = simulate-prepared s s' tx o h in
      subst₂
        (λ (s' : TxExecutionState) (o : TxExecutionOutcome).
          total s'.balances + o.charged_fee ≡ total s.balances)
        (sym es) (sym eo) (commit-total s tx t w (prepare_transfer-IsPrepared s tx t e))

  commit-IsWellFormed :
      (s : TxExecutionState) (tx : Tx) (t : Transfer)
      → IsWellFormed s
      → IsPrepared s tx t
      → IsWellFormed (commit_transfer s t)
  unfolding commit_transfer
  commit-IsWellFormed s tx t w p = record {
    balances_sorted =
        insert-IsSorted t.outcome.recipient t.recipient_balance _
          (insert-IsSorted t.outcome.sender t.sender_balance s.balances w.balances_sorted);
    nonces_sorted = insert-IsSorted t.outcome.sender _ s.nonces w.nonces_sorted;
    balances_fit = λ a. simp get-insert (
        ground (arith, w.balances_fit a, w.balances_fit tx.sender_pubkey, p.paid, p.received_fits));
    nonces_fit = λ a. simp get-insert (ground (arith, w.nonces_fit a, p.next_fits));
  }

  -- Every transaction, accepted or refused, keeps the maps ordered and every balance below 2^128 and
  -- every nonce below 2^64.
  pub simulate-IsWellFormed :
      (s : TxExecutionState) (tx : Tx)
      → IsWellFormed s
      → IsWellFormed (simulate_tx_execution s tx).0
  simulate-IsWellFormed s tx w = elim (simulate-state s tx) [
    | inl e ↦ rw e w
    | inr (t, p, e) ↦ rw e (commit-IsWellFormed s tx t w p)
  ]

  pub total-simulate-le :
      (s : TxExecutionState) (tx : Tx)
      → IsWellFormed s
      → total (simulate_tx_execution s tx).0.balances ≤ total s.balances
  total-simulate-le s tx w = elim (simulate-state s tx) [
    | inl e ↦ rw e (omega arith)
    | inr (t, p, e) ↦ rw e (omega (arith, commit-total s tx t w.balances_sorted p))
  ]

  -- No sequence of transactions, accepted or refused, raises the sum of all balances; and it keeps
  -- the maps ordered and their values within 128 and 64 bits.
  pub simulate_all-supply :
      (s : TxExecutionState) (txs : List Tx)
      → IsWellFormed s
      → (total (simulate_all s txs).balances ≤ total s.balances) × IsWellFormed (simulate_all s txs)
  unfolding simulate_all
  simulate_all-supply s [] w = (omega arith, w)
  simulate_all-supply s (tx ∷ txs) w =
      let rest =
        simulate_all-supply (simulate_tx_execution s tx).0 txs (simulate-IsWellFormed s tx w) in
      (omega (arith, rest.0, total-simulate-le s tx w), rest.1)

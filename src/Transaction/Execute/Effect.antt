-- ===== src/Transaction/Execute/Effect.antt =====
-- What a successful transfer does to the accounts (types/transaction.rs).
use mathlib.Core.Path.{subst₂}
use vision_core.Prelude.{
  sym, ◌⊎◌, ◌+◌, ◌≤◌, ◌<◌, ◌≡◌, ◌≢◌, true, ◌&&◌, ok, arith, Result-cases, inl, inr,
}
use vision_core.Prelude.Text.{Text, text, text_eq, text_eq_iff}
use vision_core.Prelude.Bytes.{u64_mod, u128_mod}
use vision_core.Prelude.Map.Laws.{get-insert}
use vision_core.Types.{Tx, CashTransferArgs}
use vision_core.External.{External}
use vision_core.Transaction.{validate_tx_stateless, decode_cash_transfer_args}
use vision_core.Transaction.Execute.{
  TxExecutionState, TxExecutionOutcome, Transfer, balance_of, nonce_of, prepare_transfer,
  commit_transfer, simulate_tx_execution,
}

abbrev pub IsCashTransfer : Tx → Type 0
IsCashTransfer tx =
    (text_eq tx.module_name (text "cash") && text_eq tx.method (text "transfer")) ≡ true

module _ ⦃ext : External⦄ where
  -- The facts that the checks of a transfer establish.
  pub record IsPrepared (s : TxExecutionState) (tx : Tx) (t : Transfer) : Type 0 where
    pub cash : IsCashTransfer tx
    pub valid : validate_tx_stateless tx ≡ ok tt
    pub sender : t.outcome.sender ≡ tx.sender_pubkey
    pub nonce : tx.nonce ≡ nonce_of s tx.sender_pubkey
    pub next : t.outcome.next_sender_nonce ≡ tx.nonce + 1
    pub next_fits : t.outcome.next_sender_nonce < u64_mod
    pub fee : t.outcome.charged_fee ≡ 1 + tx.tip
    pub fee_within : t.outcome.charged_fee ≤ tx.fee_limit
    pub decoded :
        decode_cash_transfer_args tx.args
        ≡ ok (record { to = t.outcome.recipient; amount = t.outcome.amount })
    pub paid :
        t.sender_balance + (t.outcome.amount + t.outcome.charged_fee)
        ≡ balance_of s tx.sender_pubkey
    pub received : t.recipient_balance ≡ balance_of s t.outcome.recipient + t.outcome.amount
    pub received_fits : t.recipient_balance < u128_mod

  pub prepare_transfer-IsPrepared :
      (s : TxExecutionState) (tx : Tx) (t : Transfer)
      → prepare_transfer s tx ≡ ok t
      → IsPrepared s tx t
  unfolding prepare_transfer
  prepare_transfer-IsPrepared s tx t h = ground arith

  -- The stateless rules of a cash transfer: its amount is positive, and it does not pay its sender.
  pub validate_cash-distinct :
      (tx : Tx) (args : CashTransferArgs)
      → IsCashTransfer tx
      → validate_tx_stateless tx ≡ ok tt
      → decode_cash_transfer_args tx.args ≡ ok args
      → (args.to ≢ tx.sender_pubkey) × (args.amount ≢ 0)
  unfolding validate_tx_stateless
  validate_cash-distinct tx args c v d = ground (
    arith,
    text_eq_iff tx.module_name (text "cash"),
    text_eq_iff tx.module_name (text "coinbase"),
    text_eq_iff args.to tx.sender_pubkey,
  )

  -- What a transfer has done to every account, and what it leaves alone.
  pub record Effect (s s' : TxExecutionState) (tx : Tx) (o : TxExecutionOutcome) : Type 0 where
    pub sender : o.sender ≡ tx.sender_pubkey
    pub distinct : o.recipient ≢ tx.sender_pubkey
    pub positive : o.amount ≢ 0
    pub fee : o.charged_fee ≡ 1 + tx.tip
    pub fee_within : o.charged_fee ≤ tx.fee_limit
    pub paid :
        balance_of s' tx.sender_pubkey + (o.amount + o.charged_fee) ≡ balance_of s tx.sender_pubkey
    pub received : balance_of s' o.recipient ≡ balance_of s o.recipient + o.amount
    pub others :
        (a : Text) → a ≢ tx.sender_pubkey → a ≢ o.recipient → balance_of s' a ≡ balance_of s a
    pub nonce : tx.nonce ≡ nonce_of s tx.sender_pubkey
    pub next : nonce_of s' tx.sender_pubkey ≡ tx.nonce + 1
    pub other_nonces : (a : Text) → a ≢ tx.sender_pubkey → nonce_of s' a ≡ nonce_of s a

  pub commit_transfer-Effect :
      (s : TxExecutionState) (tx : Tx) (t : Transfer)
      → IsPrepared s tx t
      → Effect s (commit_transfer s t) tx t.outcome
  unfolding commit_transfer
  commit_transfer-Effect s tx t p = record {
    sender = p.sender;
    distinct = apart.0;
    positive = apart.1;
    fee = p.fee;
    fee_within = p.fee_within;
    paid = simp get-insert (
        ground (
          arith,
          text_eq_iff t.outcome.recipient tx.sender_pubkey,
          text_eq_iff t.outcome.sender tx.sender_pubkey,
          apart.0,
        ));
    received =
        simp get-insert (ground (arith, text_eq_iff t.outcome.recipient t.outcome.recipient));
    others = λ a h k.
        simp get-insert
          (ground (arith, text_eq_iff t.outcome.recipient a, text_eq_iff t.outcome.sender a));
    nonce = p.nonce;
    next = simp get-insert (ground (arith, text_eq_iff t.outcome.sender tx.sender_pubkey));
    other_nonces = λ a h. simp get-insert (ground (arith, text_eq_iff t.outcome.sender a));
  }
    where
      apart : (t.outcome.recipient ≢ tx.sender_pubkey) × (t.outcome.amount ≢ 0)
      apart = validate_cash-distinct tx _ p.cash p.valid p.decoded

  pub simulate-prepared :
      (s s' : TxExecutionState) (tx : Tx) (o : TxExecutionOutcome)
      → simulate_tx_execution s tx ≡ (s', ok o)
      → (t : Transfer) × (prepare_transfer s tx ≡ ok t)
        × (s' ≡ commit_transfer s t)
        × (o ≡ t.outcome)
  unfolding simulate_tx_execution
  simulate-prepared s s' tx o h = elim (Result-cases (prepare_transfer s tx)) [
    | inl (t, e) ↦ (t, e, ground arith, ground arith)
    | inr (x, e) ↦ absurd (ground arith)
  ]

  -- The state after a transaction is the old one, or what a prepared transfer writes.
  pub simulate-state :
      (s : TxExecutionState) (tx : Tx)
      → ((simulate_tx_execution s tx).0 ≡ s)
        ⊎ ((t : Transfer) × IsPrepared s tx t
            × ((simulate_tx_execution s tx).0 ≡ commit_transfer s t))
  unfolding simulate_tx_execution
  simulate-state s tx = elim (Result-cases (prepare_transfer s tx)) [
    | inl (t, e) ↦ inr (t, prepare_transfer-IsPrepared s tx t e, ground arith)
    | inr (x, e) ↦ inl (ground arith)
  ]

  pub simulate-Effect :
      (s s' : TxExecutionState) (tx : Tx) (o : TxExecutionOutcome)
      → simulate_tx_execution s tx ≡ (s', ok o)
      → Effect s s' tx o
  simulate-Effect s s' tx o h =
      let (t, e, es, eo) = simulate-prepared s s' tx o h in
      subst₂ (λ s' o. Effect s s' tx o) (sym es) (sym eo)
        (commit_transfer-Effect s tx t (prepare_transfer-IsPrepared s tx t e))

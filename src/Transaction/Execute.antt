-- ===== src/Transaction/Execute.antt =====
-- types/transaction.rs: `TxExecutionState` and `simulate_tx_execution`.
pub mod Effect
pub mod Supply
pub mod Replay
use vision_core.Prelude.{
  ℕ, ◌+◌, ◌-◌, ◌&&◌, Option, none, some, List, [], ◌∷◌, ltb, leb, ◌==◌, if◌then◌else◌, unwrap_or,
  Result, ok, err, ◌>>=◌, ◌>>◌, ensure, ok_or, map_err,
}
use vision_core.Prelude.Text.{Text, text, text_eq}
use vision_core.Prelude.Bytes.{u64_mod, u128_mod}
use vision_core.Prelude.Map.{Map, get, insert}
use vision_core.Types.{Tx}
use vision_core.External.{External}
use vision_core.Transaction.{
  TxValidationError, unsupported_module_method, cash_transfer_base_fee, validate_tx_stateless,
  decode_cash_transfer_args,
}

pub record TxExecutionState : Type 0 where
  pub balances : Map ℕ
  pub nonces : Map ℕ

-- `TxExecutionState::new`
abbrev pub new : TxExecutionState
new = record { balances = []; nonces = [] }

abbrev pub balance_of : TxExecutionState → Text → ℕ
balance_of s address = unwrap_or (get address s.balances) 0

abbrev pub nonce_of : TxExecutionState → Text → ℕ
nonce_of s address = unwrap_or (get address s.nonces) 0

pub record TxExecutionOutcome : Type 0 where
  pub sender : Text
  pub recipient : Text
  pub amount : ℕ
  pub charged_fee : ℕ
  pub next_sender_nonce : ℕ

pub data TxExecutionError : Type 0 where
  validation : TxValidationError → TxExecutionError
  nonce_mismatch : (expected actual : ℕ) → TxExecutionError
  fee_exceeds_limit : (charged_fee fee_limit : ℕ) → TxExecutionError
  insufficient_balance : (available required : ℕ) → TxExecutionError
  arithmetic_overflow : TxExecutionError

-- `checked_add` at a width whose modulus is given.
abbrev pub checked_add : ℕ → ℕ → ℕ → Option ℕ
checked_add modulus a b = if ltb (a + b) modulus then some (a + b) else none

-- What the checks leave to be written: the outcome, and the two new balances.
pub record Transfer : Type 0 where
  pub outcome : TxExecutionOutcome
  pub sender_balance : ℕ
  pub recipient_balance : ℕ

module _ ⦃ext : External⦄ where
  -- The checks of `simulate_tx_execution`, in the order in which they return.
  unfoldable pub prepare_transfer : TxExecutionState → Tx → Result Transfer TxExecutionError
  prepare_transfer state tx = do
    ensure (text_eq tx.module_name (text "cash") && text_eq tx.method (text "transfer"))
        (validation unsupported_module_method)
    map_err validation (validate_tx_stateless tx)
    let expected_nonce = nonce_of state tx.sender_pubkey
    ensure (tx.nonce == expected_nonce) (nonce_mismatch expected_nonce tx.nonce)
    args ← map_err validation (decode_cash_transfer_args tx.args)
    charged_fee ← ok_or (checked_add u64_mod cash_transfer_base_fee tx.tip) arithmetic_overflow
    ensure (leb charged_fee tx.fee_limit) (fee_exceeds_limit charged_fee tx.fee_limit)
    total_cost ← ok_or (checked_add u128_mod args.amount charged_fee) arithmetic_overflow
    let available = balance_of state tx.sender_pubkey
    ensure (leb total_cost available) (insufficient_balance available total_cost)
    new_recipient_balance ←
        ok_or (checked_add u128_mod (balance_of state args.to) args.amount) arithmetic_overflow
    next_sender_nonce ← ok_or (checked_add u64_mod expected_nonce 1) arithmetic_overflow
    ok (record {
      outcome = record {
        sender = tx.sender_pubkey;
        recipient = args.to;
        amount = args.amount;
        charged_fee = charged_fee;
        next_sender_nonce = next_sender_nonce;
      };
      sender_balance = available - total_cost;
      recipient_balance = new_recipient_balance;
    })

  -- The three writes that end `simulate_tx_execution`.
  unfoldable pub commit_transfer : TxExecutionState → Transfer → TxExecutionState
  commit_transfer state t = record {
    balances =
        insert t.outcome.recipient t.recipient_balance
          (insert t.outcome.sender t.sender_balance state.balances);
    nonces = insert t.outcome.sender t.outcome.next_sender_nonce state.nonces;
  }

  -- The state comes back beside the result, on the error paths too.
  unfoldable pub simulate_tx_execution :
      TxExecutionState → Tx → TxExecutionState × Result TxExecutionOutcome TxExecutionError
  simulate_tx_execution state tx = elim (prepare_transfer state tx) [
    | ok t ↦ (commit_transfer state t, ok t.outcome)
    | err e ↦ (state, err e)
  ]

  -- A caller that runs several transactions, keeping the state whatever each returns.
  unfoldable pub simulate_all : TxExecutionState → List Tx → TxExecutionState
  simulate_all state [] = state
  simulate_all state (tx ∷ txs) = simulate_all (simulate_tx_execution state tx).0 txs

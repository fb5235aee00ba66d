-- ===== src/Tests/Accounts.antt =====
-- Runs of the account state: transfers, replays, the supply and the state root.
use vision_core.Prelude.{ℕ, ◌+◌, ◌++◌, replicate, ◌≡◌, refl, [], ◌∷◌, ok, err, arith}
use vision_core.Prelude.Text.{text, text_eq, cmp}
use vision_core.Prelude.Bytes.{Bytes}
use vision_core.Prelude.Map.{Map, get, insert}
use vision_core.Prelude.Map.Total.{total}
use vision_core.Transaction.{
  is_lowercase_hex_32_bytes, validate_tx_stateless, verify_tx_signature, decode_cash_transfer_args,
}
use vision_core.Transaction.Execute.{
  TxExecutionState, TxExecutionOutcome, simulate_tx_execution, simulate_all, nonce_mismatch,
  nonce_of, prepare_transfer, commit_transfer,
}
use vision_core.Transaction.Execute.Effect.{Effect, simulate-Effect}
use vision_core.Transaction.Execute.Supply.{IsWellFormed, total-simulate}
use vision_core.Transaction.Execute.Replay.{simulate_replay}
use Prim.Native.Nat.Ordering.{lt}
use vision_core.StateRoot.{
  compute_state_root, canonical_state_vector, append_balances, append_entries, sort_by_key,
  decode_account_key, validate_account_key, append_nonces, encode_header,
}
use vision_core.StateRoot.Entries.{value_of}
use vision_core.StateRoot.Canonical.{SameValues, compute_state_root-canonical}
use vision_core.StateRoot.Accounts.{IsWritable, canonical_state_vector-injective}
use vision_core.Miner.{apply_coinbase_reward}
use vision_core.Tests.Host.{host, host-HexDecodeInjective}
use vision_core.Tests.Samples.{alice, bob, payment, accounts}

abbrev paid : TxExecutionState
paid = record { balances = (alice, 92) ∷ (bob, 5) ∷ []; nonces = (alice, 1) ∷ [] }

abbrev outcome : TxExecutionOutcome
outcome = record {
  sender = alice;
  recipient = bob;
  amount = 5;
  charged_fee = 3;
  next_sender_nonce = 1;
}

payment_runs : simulate_tx_execution accounts payment ≡ (paid, ok outcome)
unfolding simulate_tx_execution prepare_transfer commit_transfer text_eq validate_tx_stateless host
    verify_tx_signature decode_cash_transfer_args is_lowercase_hex_32_bytes get insert
payment_runs = refl

-- A payment that is replayed at once is refused.
payment_replayed : (simulate_tx_execution paid payment).1 ≡ err (nonce_mismatch 1 0)
unfolding simulate_tx_execution prepare_transfer text_eq validate_tx_stateless host
    verify_tx_signature decode_cash_transfer_args is_lowercase_hex_32_bytes get
payment_replayed = refl

simulate-Effect_example : Effect accounts paid payment outcome
simulate-Effect_example = simulate-Effect accounts paid payment outcome payment_runs

total-simulate_example : total paid.balances + 3 ≡ total accounts.balances
total-simulate_example = total-simulate accounts paid payment outcome (tt, tt) payment_runs

accounts-IsWellFormed : IsWellFormed accounts
unfolding get
accounts-IsWellFormed = record {
  balances_sorted = (tt, tt);
  nonces_sorted = tt;
  balances_fit = λ a. ground arith;
  nonces_fit = λ a. ground arith;
}

simulate_replay_example : simulate_tx_execution (simulate_all paid (payment ∷ [])) payment ≡ (
  simulate_all paid (payment ∷ []),
  err (nonce_mismatch (nonce_of (simulate_all paid (payment ∷ [])) alice) 0),
)
simulate_replay_example = simulate_replay accounts paid payment outcome (payment ∷ []) payment_runs

-- A zero balance that a map keeps.
abbrev padded : Map ℕ
padded = (alice, 100) ∷ (bob, 0) ∷ []

alice_before_bob : cmp alice bob ≡ lt
unfolding cmp
alice_before_bob = refl

same_values : SameValues padded accounts.balances
unfolding get text_eq
same_values a = ground arith

compute_state_root-canonical_example :
    compute_state_root padded [] ≡ compute_state_root accounts.balances []
compute_state_root-canonical_example =
    compute_state_root-canonical padded accounts.balances [] [] ((alice_before_bob, tt), (tt, tt))
      (tt, tt) tt tt same_values (λ a. refl)

abbrev vector : Bytes
vector =
    text "VSTATE"
    ++ (1 ∷ 0 ∷ 0 ∷ 0 ∷ 1 ∷ 0 ∷ 0 ∷ 0 ∷ 0 ∷ 0 ∷ 0 ∷ 0 ∷ [])
    ++ replicate 32 170
    ++ 100 ∷ replicate 23 0

vector_of_accounts : canonical_state_vector accounts.balances [] ≡ ok vector
unfolding canonical_state_vector host append_balances append_entries sort_by_key decode_account_key
    validate_account_key append_nonces encode_header
vector_of_accounts = refl

accounts-IsWritable : IsWritable accounts.balances []
accounts-IsWritable = record {
  balances_sorted = (tt, tt);
  nonces_sorted = tt;
  balances_fit = (omega arith, tt);
  nonces_fit = tt;
  balances_count = omega arith;
  nonces_count = omega arith;
}

canonical_state_vector-injective_example :
    (value_of alice accounts.balances ≡ value_of alice accounts.balances)
    × (value_of alice [] ≡ value_of alice [])
canonical_state_vector-injective_example =
    canonical_state_vector-injective accounts.balances accounts.balances [] [] vector
      host-HexDecodeInjective accounts-IsWritable accounts-IsWritable vector_of_accounts
      vector_of_accounts alice

rewarded :
    apply_coinbase_reward accounts bob 1
    ≡ ok (record { balances = (alice, 100) ∷ (bob, 510000000000) ∷ []; nonces = [] })
unfolding apply_coinbase_reward is_lowercase_hex_32_bytes get insert
rewarded = refl

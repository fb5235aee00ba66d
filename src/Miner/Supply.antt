-- ===== src/Miner/Supply.antt =====
-- The subsidy over the heights, and the supply when it is paid.
use vision_core.Prelude.{ℕ, ◌+◌, ◌/◌, ◌%◌, ◌^◌, ◌≡◌, ok, arith}
use vision_core.Prelude.Text.{Text}
use vision_core.Prelude.Map.{IsSorted}
use vision_core.Prelude.Map.Laws.{insert-IsSorted, get-insert}
use vision_core.Prelude.Map.Total.{total, total-insert}
use vision_core.Transaction.Execute.{TxExecutionState, balance_of}
use vision_core.Transaction.Execute.Supply.{IsWellFormed}
use vision_core.Miner.{emission_per_block, halving_interval, block_reward, apply_coinbase_reward}

-- The coinbase adds the subsidy of the height to the sum of all balances, and touches no nonce.
pub total-apply_coinbase_reward :
    (s s' : TxExecutionState) (miner : Text) (height : ℕ)
    → IsSorted s.balances
    → apply_coinbase_reward s miner height ≡ ok s'
    → (total s'.balances ≡ total s.balances + block_reward height) × (s'.nonces ≡ s.nonces)
unfolding apply_coinbase_reward block_reward
total-apply_coinbase_reward s s' miner height w h = ground (
  arith,
  total-insert miner
      (balance_of s miner + emission_per_block / 2 ^ (height / halving_interval % 128)) s.balances
      w,
)

pub apply_coinbase_reward-IsWellFormed :
    (s s' : TxExecutionState) (miner : Text) (height : ℕ)
    → IsWellFormed s
    → apply_coinbase_reward s miner height ≡ ok s'
    → IsWellFormed s'
unfolding apply_coinbase_reward
apply_coinbase_reward-IsWellFormed s s' miner height w h = record {
  balances_sorted = ground (
    arith,
    insert-IsSorted miner (balance_of s miner + block_reward height) s.balances w.balances_sorted,
  );
  nonces_sorted = ground (arith, w.nonces_sorted);
  balances_fit = λ a. ground (
    arith,
    w.balances_fit a,
    get-insert miner a (balance_of s miner + block_reward height) s.balances,
  );
  nonces_fit = λ a. ground (arith, w.nonces_fit a);
}

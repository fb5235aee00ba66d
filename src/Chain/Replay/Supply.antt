-- ===== src/Chain/Replay/Supply.antt =====
-- The supply of a replayed chain: no more than the subsidies of its blocks.
use vision_core.Prelude.{
  ℕ, ◌+◌, ◌≤◌, ◌≡◌, List, [], ◌∷◌, drop, ok, Bool-cases, bind-ok, map_err, map_err-ok, ok-injective,
  inl, inr, arith, ◌==◌, if◌then◌else◌, subst,
}
use vision_core.Prelude.Map.{get}
use vision_core.Prelude.Map.Total.{total}
use vision_core.Types.{Tx, Block}
use vision_core.External.{External}
use vision_core.Transaction.Execute.{TxExecutionState, simulate_tx_execution, new}
use vision_core.Transaction.Execute.Supply.{IsWellFormed, simulate-IsWellFormed, total-simulate-le}
use vision_core.Miner.{block_reward, apply_coinbase_reward}
use vision_core.Miner.Supply.{total-apply_coinbase_reward, apply_coinbase_reward-IsWellFormed}
use vision_core.Chain.Replay.{
  ReplayError, execution, coinbase_reward, execute_txs, reward_block, run_block, run_blocks,
}

-- The sum of the subsidies that the blocks pay.
unfoldable pub subsidies : List Block → ℕ
subsidies [] = 0
subsidies (b ∷ bs) =
    (if b.header.number == 0 then 0 else block_reward b.header.number) + subsidies bs

-- The maps stay ordered and within their widths, and the sum of the balances grows by at most `n`.
abbrev pub GrowsBy : ℕ → TxExecutionState → TxExecutionState → Type 0
GrowsBy n s t = ((total t.balances ≤ total s.balances + n) × IsWellFormed t)

pub empty-IsWellFormed : IsWellFormed new
unfolding get
empty-IsWellFormed = record {
  balances_sorted = tt;
  nonces_sorted = tt;
  balances_fit = λ a. ground arith;
  nonces_fit = λ a. ground arith;
}

module _ ⦃ext : External⦄ where
  execute_txs-supply :
      (txs : List Tx) (s t : TxExecutionState)
      → IsWellFormed s
      → execute_txs s txs ≡ ok t
      → GrowsBy 0 s t
  unfolding execute_txs
  execute_txs-supply [] s t w e = subst (GrowsBy 0 s) (ok-injective e) (omega arith, w)
  execute_txs-supply (tx ∷ txs) s t w e =
      let (o, e1, r1) =
        bind-ok (map_err execution (simulate_tx_execution s tx).1)
          (λ o. execute_txs (simulate_tx_execution s tx).0 txs) t e in
      let rest =
        execute_txs-supply txs (simulate_tx_execution s tx).0 t (simulate-IsWellFormed s tx w) r1 in
      (omega (arith, rest.0, total-simulate-le s tx w), rest.1)

  reward_block-supply :
      (b : Block) (s t : TxExecutionState)
      → IsWellFormed s
      → reward_block s b ≡ ok t
      → GrowsBy (subsidies (b ∷ [])) s t
  unfolding reward_block subsidies
  reward_block-supply b s t w e = elim (Bool-cases (b.header.number == 0)) [
    | inl z ↦
        let same : s ≡ t = ok-injective {E = ReplayError} (ground (arith, e, z)) in
        rw z (subst (GrowsBy 0 s) same (omega arith, w))
    | inr p ↦
        let paid : apply_coinbase_reward s b.header.miner b.header.number ≡ ok t =
          map_err-ok coinbase_reward _ t (ground (arith, e, p)) in
        rw p (
          omega (
            arith,
            (total-apply_coinbase_reward s t b.header.miner b.header.number w.balances_sorted
                paid).0,
          ),
          apply_coinbase_reward-IsWellFormed s t b.header.miner b.header.number w paid,
        )
  ]

  run_block-supply :
      (b : Block) (s t : TxExecutionState)
      → IsWellFormed s
      → run_block s b ≡ ok t
      → GrowsBy (subsidies (b ∷ [])) s t
  unfolding run_block
  run_block-supply b s t w e =
      let (mid, e1, r1) = bind-ok (execute_txs s (drop 1 b.txs)) (λ m. reward_block m b) t e in
      let first = execute_txs-supply (drop 1 b.txs) s mid w e1 in
      let second = reward_block-supply b mid t first.1 r1 in
      (omega (arith, first.0, second.0), second.1)

  -- A replay raises the sum of the balances by no more than the subsidies of the replayed blocks, and
  -- keeps the maps ordered and their values within 128 and 64 bits.
  pub run_blocks-supply :
      (bs : List Block) (s t : TxExecutionState)
      → IsWellFormed s
      → run_blocks s bs ≡ ok t
      → (total t.balances ≤ total s.balances + subsidies bs) × IsWellFormed t
  unfolding run_blocks subsidies
  run_blocks-supply [] s t w e = subst (GrowsBy 0 s) (ok-injective e) (omega arith, w)
  run_blocks-supply (b ∷ bs) s t w e =
      let (mid, e1, r1) = bind-ok (run_block s b) (λ m. run_blocks m bs) t e in
      let first = run_block-supply b s mid w e1 in
      let rest = run_blocks-supply bs mid t first.1 r1 in (omega (arith, first.0, rest.0), rest.1)

  -- The replay from the empty state has at most the subsidies.
  pub chain-supply :
      (bs : List Block) (t : TxExecutionState)
      → run_blocks new bs ≡ ok t
      → total t.balances ≤ subsidies bs
  unfolding total
  chain-supply bs t e = omega (arith, (run_blocks-supply bs new t empty-IsWellFormed e).0)

-- ===== src/Miner/Manager/Offers.antt =====
-- What a candidate for the tip is to block acceptance, its state included.
use vision_core.Prelude.{
  ℕ, ◌+◌, ◌≡◌, ◌<◌, refl, ap, sym, subst, false, some, List, [], ◌∷◌, last?, drop, ok, Result-cases,
  Option-cases, inl, inr, arith, ◌==◌,
}
use vision_core.Prelude.Text.{Text, text_eq_refl}
use vision_core.Prelude.Bytes.{u64_mod}
use vision_core.Types.{Tx, Block}
use vision_core.External.{External}
use vision_core.Block.{compute_tx_root}
use vision_core.StateRoot.{compute_state_root}
use vision_core.Transaction.Execute.{TxExecutionState, simulate_tx_execution}
use vision_core.Miner.{MiningJob, build_candidate, apply_coinbase_reward}
use vision_core.Miner.Candidate.{IsCandidate, solved, build_candidate-IsCandidate}
use vision_core.Chain.{ChainState}
use vision_core.Chain.Replay.{execute_txs, reward_block, run_block, check_root, check_block}
use vision_core.Miner.Manager.{
  run_candidate, candidate_root, with_root, complete_job, state_of, ancestor_window, candidate_on,
  build_candidate_for_tip, candidate_time,
}

module _ ⦃ext : External⦄ where
  execute_txs-run :
      (txs : List Tx) (state final : TxExecutionState)
      → run_candidate state txs ≡ some final
      → execute_txs state txs ≡ ok final
  unfolding run_candidate execute_txs
  execute_txs-run [] state final e = cc
  execute_txs-run (tx ∷ txs) state final e =
      ground (arith, execute_txs-run txs (simulate_tx_execution state tx).0 final, e)

  -- What a completed job rests on.
  record IsCompleted (state : TxExecutionState) (miner : Text) (height : ℕ) (job j : MiningJob)
      : Type 0 where
    executed : TxExecutionState
    paid : TxExecutionState
    root : Text
    runs : execute_txs state (drop 1 job.txs) ≡ ok executed
    pays : apply_coinbase_reward executed miner height ≡ ok paid
    rooted : compute_state_root paid.balances paid.nonces ≡ ok root
    same : j ≡ with_root job root

  candidate_root-ok :
      (executed : TxExecutionState) (miner root : Text) (height : ℕ)
      → candidate_root executed miner height ≡ some root
      → (paid : TxExecutionState) × (apply_coinbase_reward executed miner height ≡ ok paid)
        × (compute_state_root paid.balances paid.nonces ≡ ok root)
  unfolding candidate_root
  candidate_root-ok executed miner root height e =
      elim (Result-cases (apply_coinbase_reward executed miner height)) [
        | inl (paid, p) ↦ elim (Result-cases (compute_state_root paid.balances paid.nonces)) [
          | inl (r, q) ↦ (paid, p, ground (arith, p, q, e))
          | inr (x, q) ↦ absurd (ground (arith, p, q, e))
        ]
        | inr (x, p) ↦ absurd (ground (arith, p, e))
      ]

  complete_job-IsCompleted :
      (state : TxExecutionState) (miner : Text) (height : ℕ) (job j : MiningJob)
      → complete_job state miner height job ≡ some j
      → IsCompleted state miner height job j
  unfolding complete_job
  complete_job-IsCompleted state miner height job j e =
      elim (Option-cases (run_candidate state (drop 1 job.txs))) [
        | inr (executed, p) ↦ elim (Option-cases (candidate_root executed miner height)) [
          | inr (root, q) ↦
              let (paid, pays, rooted) = candidate_root-ok executed miner root height q in
              record {
                executed = executed;
                paid = paid;
                root = root;
                runs = execute_txs-run (drop 1 job.txs) state executed p;
                pays = pays;
                rooted = rooted;
                same = ground (arith, p, q, e);
              }
          | inl q ↦ absurd (ground (arith, p, q, e))
        ]
        | inl p ↦ absurd (ground (arith, p, e))
      ]

  with_root-IsCandidate :
      (tip : Block) (window : List Block) (job : MiningJob) (root : Text) (nonce : ℕ)
      (pow_hash : Text)
      → IsCandidate tip window (solved job nonce pow_hash)
      → IsCandidate tip window (solved (with_root job root) nonce pow_hash)
  unfolding compute_tx_root
  with_root-IsCandidate tip window job root nonce pow_hash p = record {
    root = p.root;
    coinbase = p.coinbase;
    args_length = p.args_length;
    args_height = p.args_height;
    weight = p.weight;
    parent = p.parent;
    number = p.number;
    difficulty = p.difficulty;
  }

  completed-check_block :
      (state : TxExecutionState) (miner : Text) (height : ℕ) (job j : MiningJob) (nonce : ℕ)
      (pow_hash : Text)
      → job.header_template.number ≡ height + 1
      → job.header_template.miner ≡ miner
      → IsCompleted state miner (height + 1) job j
      → (s : TxExecutionState) × (check_block state (solved j nonce pow_hash) ≡ ok s)
  unfolding check_block check_root run_block reward_block
  completed-check_block state miner height job j nonce pow_hash en em c =
      let above : (height + 1 == 0) ≡ false = ground arith in
      (c.paid, rw (c.same, c.runs, en, above, em, c.pays, c.rooted, text_eq_refl c.root) refl)

  module _ {Db : Type 0} where
    -- The candidate passes the checks without the state, is later than the tip, and its transactions,
    -- its reward and its state root pass those of the full replay on the state of the chain.
    pub record IsOffer (g : ChainState Db) (tip b : Block) : Type 0 where
      pub candidate : IsCandidate tip (ancestor_window g) b
      pub later : tip.header.timestamp < b.header.timestamp
      pub runs : (s : TxExecutionState) × (check_block (state_of g) b ≡ ok s)

    -- A job for the tip, solved with any nonce and hash, is an offer.
    offered-IsOffer :
        (epoch_of : ℕ → ℕ) (now counter : ℕ) (g : ChainState Db) (tip : Block) (miner_addr : Text)
        (mempool_txs : List Tx) (j : MiningJob) (nonce : ℕ) (pow_hash : Text)
        → tip.header.number + 1 < u64_mod
        → tip.header.timestamp + 1 < u64_mod
        → IsCompleted
            (state_of g)
            miner_addr
            (tip.header.number + 1)
            (candidate_on epoch_of now counter g tip miner_addr mempool_txs)
            j
        → IsOffer g tip (solved j nonce pow_hash)
    unfolding candidate_on build_candidate
    offered-IsOffer epoch_of now counter g tip miner_addr mempool_txs j nonce pow_hash hn ht c =
        let job = candidate_on epoch_of now counter g tip miner_addr mempool_txs in
        record {
          candidate =
              subst (λ x. IsCandidate tip (ancestor_window g) (solved x nonce pow_hash))
                (sym c.same)
                (with_root-IsCandidate tip (ancestor_window g) job c.root nonce pow_hash (
                  build_candidate-IsCandidate epoch_of tip counter miner_addr mempool_txs
                    (ancestor_window g) (candidate_time now tip) nonce pow_hash hn));
          later =
              let stamp : j.header_template.timestamp ≡ candidate_time now tip =
                ap (λ x. x.header_template.timestamp) c.same in
              omega (arith, stamp, ht);
          runs =
              completed-check_block (state_of g) miner_addr tip.header.number job j nonce pow_hash
                refl refl c;
        }

    pub build_candidate_for_tip-IsOffer :
        (epoch_of : ℕ → ℕ) (now counter : ℕ) (g : ChainState Db) (tip : Block) (miner_addr : Text)
        (mempool_txs : List Tx) (j : MiningJob) (nonce : ℕ) (pow_hash : Text)
        → last? g.blocks ≡ some tip
        → tip.header.number + 1 < u64_mod
        → tip.header.timestamp + 1 < u64_mod
        → (build_candidate_for_tip epoch_of now counter g miner_addr mempool_txs).0 ≡ some j
        → IsOffer g tip (solved j nonce pow_hash)
    unfolding build_candidate_for_tip
    build_candidate_for_tip-IsOffer epoch_of now counter g tip miner_addr mempool_txs j nonce
          pow_hash last hn ht e =
        let job = candidate_on epoch_of now counter g tip miner_addr mempool_txs in
        let built : complete_job (state_of g) miner_addr (tip.header.number + 1) job ≡ some j =
          ground (arith, last, e) in
        offered-IsOffer epoch_of now counter g tip miner_addr mempool_txs j nonce pow_hash hn ht
          (complete_job-IsCompleted (state_of g) miner_addr (tip.header.number + 1) job j built)

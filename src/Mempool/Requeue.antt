-- ===== src/Mempool/Requeue.antt =====
-- mempool/pool.rs: `requeue_after_reorg`, which offers the transactions of the replaced branch again.
pub mod Report
use Prim.Native.Nat.{Ordering, compare}
use Prim.Native.Nat.Ordering.{gt, eq}
use vision_core.Prelude.{
  ℕ, zero, suc, ◌+◌, ◌≡◌, refl, ◌∙◌, ap, Bool, true, false, not, none, some, Option, List, [], ◌∷◌,
  ◌++◌, map, length, keep_if, any, find, All, arith, if◌then◌else◌, ok, err, Result, Result-cases,
  inl, inr, Bool-cases,
}
use vision_core.Prelude.Text.{Text, text, cmp, text_eq}
use vision_core.Types.{Tx}
use vision_core.External.{External}
use vision_core.Transaction.{canonical_tx_id}
use vision_core.Chain.{ChainState, ReorgRecovery, nonce_of}
use vision_core.Mempool.{Pool, admit, remove_confirmed}
use vision_core.Mempool.Admission.{AdmissionDecision, MempoolAdmissionError}
use vision_core.Mempool.Filter.{mem}
use vision_core.Mempool.History.{Reach, start, admits, confirms}

pub record ReorgRequeueReport : Type 0 where
  pub accepted : List Text
  pub rejected : List (Text × MempoolAdmissionError)

-- By sender, then by nonce.
abbrev pub after : Tx → Tx → Bool
after a b = elim (cmp a.sender_pubkey b.sender_pubkey) [
  | gt ↦ true
  | eq ↦ elim (compare a.nonce b.nonce) [ gt ↦ true | _ ↦ false ]
  | _ ↦ false
]

-- `sort_by`, stable: an insertion sort.
unfoldable pub place : Tx → List Tx → List Tx
place tx [] = tx ∷ []
place tx (t ∷ ts) = let rest = place tx ts in if after tx t then t ∷ rest else tx ∷ t ∷ ts

unfoldable pub sort_candidates : List Tx → List Tx
unfolding place
sort_candidates [] = []
sort_candidates (tx ∷ txs) = place tx (sort_candidates txs)

module _ ⦃ext : External⦄ where
  abbrev pub is_candidate : List Text → Tx → Bool
  is_candidate winning tx =
      if text_eq tx.module_name (text "coinbase")
      then false
      else not (mem (canonical_tx_id tx) winning)

  unfoldable pub candidates : ReorgRecovery → List Tx
  unfolding sort_candidates
  candidates recovery =
      sort_candidates (keep_if (is_candidate recovery.winning_tx_ids) recovery.displaced_txs)

  abbrev pub note :
      Text
      → Result AdmissionDecision MempoolAdmissionError
      → ReorgRequeueReport
      → ReorgRequeueReport
  note tx_id (ok d) report = record report { accepted = report.accepted ++ tx_id ∷ [] }
  note tx_id (err e) report = record report { rejected = report.rejected ++ (tx_id, e) ∷ [] }

  module _ {Db : Type 0} (chain : ChainState Db) where
    unfoldable pub requeue : Pool → List Tx → ReorgRequeueReport → Pool × ReorgRequeueReport
    requeue pool [] report = (pool, report)
    requeue pool (tx ∷ txs) report =
        let (next, result) = admit pool tx (nonce_of chain tx.sender_pubkey) in
        requeue next txs (note (canonical_tx_id tx) result report)

    unfoldable pub requeue_after_reorg : Pool → ReorgRecovery → Pool × ReorgRequeueReport
    unfolding requeue candidates
    requeue_after_reorg pool recovery =
        requeue (remove_confirmed pool recovery.winning_tx_ids) (candidates recovery)
          (record { accepted = []; rejected = [] })

    requeue-Reach :
        (txs : List Tx) (pool : Pool) (report : ReorgRequeueReport)
        → Reach pool
        → Reach (requeue pool txs report).0
    unfolding requeue
    requeue-Reach [] pool report r = r
    requeue-Reach (tx ∷ txs) pool report r =
        requeue-Reach txs _ _ (admits r tx (nonce_of chain tx.sender_pubkey))

    -- The pool after a requeue is again a pool of a history, with all that `Reach-IsPool` says of it.
    pub requeue_after_reorg-Reach :
        (pool : Pool) (recovery : ReorgRecovery)
        → Reach pool
        → Reach (requeue_after_reorg pool recovery).0
    unfolding requeue_after_reorg
    requeue_after_reorg-Reach pool recovery r =
        requeue-Reach (candidates recovery) _ _ (confirms r recovery.winning_tx_ids)

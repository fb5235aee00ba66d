-- ===== src/Mempool/Requeue/Report.antt =====
-- What a requeue reports, and what it never puts back.
use vision_core.Prelude.{
  ℕ, suc, ◌+◌, ◌≡◌, refl, ◌∙◌, true, false, none, List, [], ◌∷◌, length, length-append, keep_if,
  find, find-append, All, arith, ok, err, Result, leb, Bool-cases, inl, inr,
}
use vision_core.Prelude.Text.{Text, text_eq, text_eq_iff}
use vision_core.Prelude.Map.{get}
use vision_core.Types.{Tx}
use vision_core.External.{External}
use vision_core.Transaction.{canonical_tx_id}
use vision_core.Chain.{ChainState, ReorgRecovery, nonce_of}
use vision_core.Mempool.{Pool, admit, remove_confirmed, mempool_max}
use vision_core.Mempool.Admission.{
  AdmissionDecision, MempoolAdmissionError, accept, replace, evaluate,
}
use vision_core.Mempool.View.{Represents, has_id}
use vision_core.Mempool.Filter.{
  mem, keep_ids, other_than, unconfirmed, find-keep_ids, remove_confirmed-Represents,
}
use vision_core.Mempool.Operations.{push, admitted, admit-Represents}
use vision_core.Mempool.Requeue.{
  ReorgRequeueReport, place, sort_candidates, after, is_candidate, candidates, note, requeue,
  requeue_after_reorg,
}

length-place : (tx : Tx) (txs : List Tx) → length (place tx txs) ≡ suc (length txs)
unfolding place
length-place tx [] = refl
length-place tx (t ∷ ts) = ground (arith, length-place tx ts)

length-sort : (txs : List Tx) → length (sort_candidates txs) ≡ length txs
unfolding sort_candidates
length-sort [] = refl
length-sort (tx ∷ txs) = omega (arith, length-place tx (sort_candidates txs), length-sort txs)

All-place : (P : Tx → Type 0) (tx : Tx) (txs : List Tx) → P tx → All P txs → All P (place tx txs)
unfolding place
All-place P tx [] p h = (p, tt)
All-place P tx (t ∷ ts) p h = elim (Bool-cases (after tx t)) [
  | inl e ↦ rw e (h.0, All-place P tx ts p h.1)
  | inr e ↦ rw e (p, h)
]

All-sort : (P : Tx → Type 0) (txs : List Tx) → All P txs → All P (sort_candidates txs)
unfolding sort_candidates
All-sort P [] h = tt
All-sort P (tx ∷ txs) h = All-place P tx (sort_candidates txs) h.0 (All-sort P txs h.1)

abbrev entries : ReorgRequeueReport → ℕ
entries r = length r.accepted + length r.rejected

module _ ⦃ext : External⦄ where
  note-entries :
      (id : Text) (r : Result AdmissionDecision MempoolAdmissionError) (report : ReorgRequeueReport)
      → entries (note id r report) ≡ suc (entries report)
  note-entries id (ok d) report = omega (arith, length-append report.accepted (id ∷ []))
  note-entries id (err e) report = omega (arith, length-append report.rejected ((id, e) ∷ []))

  kept-All :
      (winning : List Text) (txs : List Tx)
      → All (λ tx. is_candidate winning tx ≡ true) (keep_if (is_candidate winning) txs)
  kept-All winning [] = tt
  kept-All winning (tx ∷ txs) = elim (Bool-cases (is_candidate winning tx)) [
    | inl e ↦ rw e (e, kept-All winning txs)
    | inr e ↦ rw e (kept-All winning txs)
  ]

  find-push :
      (l : List Tx) (tx : Tx) (id : Text)
      → find (has_id id) l ≡ none
      → text_eq (canonical_tx_id tx) id ≡ false
      → find (has_id id) (push l tx) ≡ none
  find-push [] tx id h e = ground (arith, e)
  find-push (t ∷ l) tx id h e = elim (Bool-cases (leb mempool_max (length (t ∷ l)))) [
    | inl full ↦ rw full (find-append (has_id id) l (tx ∷ []) ∙ ground (arith, h, e))
    | inr room ↦ rw room (find-append (has_id id) (t ∷ l) (tx ∷ []) ∙ ground (arith, h, e))
  ]

  find-admitted :
      (l : List Tx) (tx : Tx) (id : Text) (r : Result AdmissionDecision MempoolAdmissionError)
      → find (has_id id) l ≡ none
      → text_eq (canonical_tx_id tx) id ≡ false
      → find (has_id id) (admitted l tx r) ≡ none
  find-admitted l tx id (ok accept) h e = find-push l tx id h e
  find-admitted l tx id (ok (replace old)) h e =
      find-push (keep_ids (other_than old) l) tx id
        (ground (arith, find-keep_ids (other_than old) id l, h)) e
  find-admitted l tx id (err x) h e = h

  not_mem :
      (i : Text) (is : List Text) (id : Text)
      → mem i is ≡ false
      → mem id is ≡ true
      → text_eq i id ≡ false
  not_mem i is id a b = ground (arith, a, b, text_eq_iff i id)

  module _ {Db : Type 0} (chain : ChainState Db) where
    requeue-entries :
        (txs : List Tx) (pool : Pool) (report : ReorgRequeueReport)
        → entries (requeue chain pool txs report).1 ≡ entries report + length txs
    unfolding requeue
    requeue-entries [] pool report = omega arith
    requeue-entries (tx ∷ txs) pool report =
        let (next, result) = admit pool tx (nonce_of chain tx.sender_pubkey) in
        omega (
          arith,
          requeue-entries txs next (note (canonical_tx_id tx) result report),
          note-entries (canonical_tx_id tx) result report,
        )

    -- A requeue reports once on each displaced transaction that is no coinbase and not in the new
    -- branch, and on no other.
    pub requeue_after_reorg-entries :
        (pool : Pool) (recovery : ReorgRecovery)
        → length (requeue_after_reorg chain pool recovery).1.accepted
            + length (requeue_after_reorg chain pool recovery).1.rejected
          ≡ length (keep_if (is_candidate recovery.winning_tx_ids) recovery.displaced_txs)
    unfolding requeue_after_reorg candidates
    requeue_after_reorg-entries pool recovery = omega (
      arith,
      requeue-entries (candidates recovery) (remove_confirmed pool recovery.winning_tx_ids)
          (record { accepted = []; rejected = [] }),
      length-sort (keep_if (is_candidate recovery.winning_tx_ids) recovery.displaced_txs),
    )

    requeue-absent :
        (winning : List Text) (id : Text) (txs : List Tx) (pool : Pool) (l : List Tx)
        (report : ReorgRequeueReport)
        → mem id winning ≡ true
        → All (λ tx. is_candidate winning tx ≡ true) txs
        → Represents pool l
        → find (has_id id) l ≡ none
        → get id (requeue chain pool txs report).0.by_id ≡ none
    unfolding requeue
    requeue-absent winning id [] pool l report m a h f = h.lookup id ∙ f
    requeue-absent winning id (tx ∷ txs) pool l report m a h f =
        let (next, result) = admit pool tx (nonce_of chain tx.sender_pubkey) in
        let decision = evaluate (nonce_of chain tx.sender_pubkey) l tx in
        requeue-absent winning id txs next (admitted l tx decision)
          (note (canonical_tx_id tx) result report) m a.1
          (admit-Represents pool l tx (nonce_of chain tx.sender_pubkey) h).1
          (find-admitted l tx id decision f
            (not_mem (canonical_tx_id tx) winning id (ground (arith, a.0)) m))

    -- After a requeue no transaction of the new branch is pending, whatever was displaced, for a pool
    -- that holds a list.
    pub requeue_after_reorg-absent :
        (pool : Pool) (l : List Tx) (recovery : ReorgRecovery) (id : Text)
        → Represents pool l
        → mem id recovery.winning_tx_ids ≡ true
        → get id (requeue_after_reorg chain pool recovery).0.by_id ≡ none
    unfolding requeue_after_reorg candidates
    requeue_after_reorg-absent pool l recovery id h m =
        let winning = recovery.winning_tx_ids in
        requeue-absent winning id (candidates recovery) (remove_confirmed pool winning)
          (keep_ids (unconfirmed winning) l) (record { accepted = []; rejected = [] }) m
          (All-sort (λ tx. is_candidate winning tx ≡ true) _
            (kept-All winning recovery.displaced_txs))
          (remove_confirmed-Represents pool l winning h)
          (ground (arith, find-keep_ids (unconfirmed winning) id l, m))

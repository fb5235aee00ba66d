-- ===== src/Mempool/Admission.antt =====
-- mempool/admission.rs: the admission policy over a snapshot of the pending transactions.
use vision_core.Prelude.{
  ℕ, ◌+◌, min, Bool, ◌&&◌, Option, none, some, List, ltb, ◌==◌, if◌then◌else◌, any, find, Result,
  ok, err, ◌>>◌, map_err,
}
use vision_core.Prelude.Text.{Text, text_eq}
use vision_core.Prelude.Bytes.{u64_max}
use vision_core.Types.{Tx}
use vision_core.External.{External}
use vision_core.Transaction.{TxValidationError, canonical_tx_id, validate_tx_stateless}

pub data MempoolAdmissionError : Type 0 where
  stateless_validation : TxValidationError → MempoolAdmissionError
  duplicate_canonical_tx_id : MempoolAdmissionError
  stale_nonce : (current_nonce tx_nonce : ℕ) → MempoolAdmissionError
  nonce_gap : (current_nonce tx_nonce : ℕ) → MempoolAdmissionError
  duplicate_sender_nonce :
      (sender_pubkey : Text) (nonce existing_tip new_tip : ℕ) → MempoolAdmissionError

pub data AdmissionDecision : Type 0 where
  accept : AdmissionDecision
  replace : (evict_tx_id : Text) → AdmissionDecision

-- The slot that a transaction takes: its sender and nonce.
abbrev pub same_slot : Tx → Tx → Bool
same_slot existing tx =
    text_eq existing.sender_pubkey tx.sender_pubkey && (existing.nonce == tx.nonce)

module _ ⦃ext : External⦄ where
  abbrev pub same_id : Tx → Tx → Bool
  same_id existing tx = text_eq (canonical_tx_id existing) (canonical_tx_id tx)

  -- The rule for a transaction whose sender and nonce are already pending.
  unfoldable pub compete : Tx → Option Tx → Result AdmissionDecision MempoolAdmissionError
  compete tx none = ok accept
  compete tx (some existing) =
      if ltb existing.tip tx.tip
      then ok (replace (canonical_tx_id existing))
      else err (duplicate_sender_nonce tx.sender_pubkey tx.nonce existing.tip tx.tip)

  -- `MempoolAdmission::evaluate`
  unfoldable pub evaluate : ℕ → List Tx → Tx → Result AdmissionDecision MempoolAdmissionError
  evaluate current_nonce pending tx = do
    map_err stateless_validation (validate_tx_stateless tx)
    if any (λ existing. same_id existing tx) pending
        then err duplicate_canonical_tx_id
        else if ltb tx.nonce current_nonce
        then err (stale_nonce current_nonce tx.nonce)
        else if ltb (min (current_nonce + 1) u64_max) tx.nonce
        then err (nonce_gap current_nonce tx.nonce)
        else compete tx (find (λ existing. same_slot existing tx) pending)

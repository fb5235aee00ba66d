-- ===== src/Mempool/Slots.antt =====
-- One pending transaction for each sender and nonce.
use vision_core.Prelude.{
  ℕ, ◌<◌, Option-cases, inl, inr, ◌≡◌, refl, Bool, true, false, none, some, List, [], ◌∷◌, ◌++◌,
  keep_if, any, find, arith, ok,
}
use vision_core.Prelude.Text.{Text, text_eq_iff, text_eq_refl}
use vision_core.Types.{Tx}
use vision_core.External.{External}
use vision_core.Transaction.{canonical_tx_id, validate_tx_stateless}
use vision_core.Mempool.Admission.{same_slot, AdmissionDecision, accept, replace, evaluate, compete}
use vision_core.Mempool.Filter.{keep_ids, other_than}

abbrev pub taken : Tx → List Tx → Bool
taken tx = any (λ existing. same_slot existing tx)

-- No two transactions of the list have the same sender and nonce.
abbrev pub Slots : List Tx → Type 0
Slots [] = Unit
Slots (tx ∷ l) = (taken tx l ≡ false) × Slots l

taken-keep_if :
    (q : Tx → Bool) (tx : Tx) (l : List Tx) → taken tx l ≡ false → taken tx (keep_if q l) ≡ false
taken-keep_if q tx [] h = refl
taken-keep_if q tx (t ∷ l) h = ground (arith, taken-keep_if q tx l)

pub Slots-keep_if : (q : Tx → Bool) (l : List Tx) → Slots l → Slots (keep_if q l)
Slots-keep_if q [] s = tt
Slots-keep_if q (t ∷ l) s = ground (arith, Slots-keep_if q l s.1, taken-keep_if q t l s.0)

pub Slots-append : (l : List Tx) (tx : Tx) → Slots l → taken tx l ≡ false → Slots (l ++ tx ∷ [])
Slots-append [] tx s h = (refl, tt)
Slots-append (t ∷ l) tx s h = (
  taken_append t tx l s.0 (
      ground (
        arith,
        h,
        text_eq_iff tx.sender_pubkey t.sender_pubkey,
        text_eq_iff t.sender_pubkey tx.sender_pubkey,
      )),
  Slots-append l tx s.1 (ground arith),
)
  where
    taken_append :
        (a b : Tx) (m : List Tx)
        → taken a m ≡ false
        → same_slot b a ≡ false
        → taken a (m ++ b ∷ []) ≡ false
    taken_append a b [] h e = ground arith
    taken_append a b (c ∷ m) h e = ground (arith, taken_append a b m)

pub find-none-taken :
    (tx : Tx) (l : List Tx) → find (λ existing. same_slot existing tx) l ≡ none → taken tx l ≡ false
find-none-taken tx [] h = refl
find-none-taken tx (t ∷ l) h = ground (arith, find-none-taken tx l)

taken_same : (a b : Tx) (l : List Tx) → same_slot a b ≡ true → taken a l ≡ false → taken b l ≡ false
taken_same a b [] h e = refl
taken_same a b (t ∷ l) h e = ground (
  arith,
  taken_same a b l h,
  text_eq_iff a.sender_pubkey b.sender_pubkey,
  text_eq_iff t.sender_pubkey b.sender_pubkey,
  text_eq_iff t.sender_pubkey a.sender_pubkey,
)

module _ ⦃ext : External⦄ where
  -- Without the transaction that holds it, the slot is free.
  pub taken-keep_ids :
      (tx existing : Tx) (l : List Tx)
      → Slots l
      → find (λ e. same_slot e tx) l ≡ some existing
      → taken tx (keep_ids (other_than (canonical_tx_id existing)) l) ≡ false
  taken-keep_ids tx existing [] s h = cc
  taken-keep_ids tx existing (t ∷ l) s h = ground (
    arith,
    taken-keep_ids tx existing l s.1,
    taken_same t tx l,
    s.0,
    taken-keep_if (λ u. other_than (canonical_tx_id existing) (canonical_tx_id u)) tx l,
    text_eq_refl (canonical_tx_id t),
  )

  -- What the policy has checked when it admits.
  pub evaluate-accept :
      (n : ℕ) (l : List Tx) (tx : Tx) → evaluate n l tx ≡ ok accept → taken tx l ≡ false
  unfolding evaluate compete
  evaluate-accept n l tx h = find-none-taken tx l (ground arith)

  pub evaluate-replace :
      (n : ℕ) (l : List Tx) (tx : Tx) (id : Text)
      → evaluate n l tx ≡ ok (replace id)
      → (existing : Tx) × (find (λ e. same_slot e tx) l ≡ some existing)
        × (canonical_tx_id existing ≡ id)
        × (existing.tip < tx.tip)
  unfolding evaluate compete
  evaluate-replace n l tx id h = elim (Option-cases (find (λ e. same_slot e tx) l)) [
    | inl e ↦ absurd (ground (arith, e))
    | inr (existing, e) ↦ (existing, e, ground (arith, e), ground (arith, e))
  ]

  pub evaluate-valid :
      (n : ℕ) (l : List Tx) (tx : Tx) (d : AdmissionDecision)
      → evaluate n l tx ≡ ok d
      → validate_tx_stateless tx ≡ ok tt
  unfolding evaluate
  evaluate-valid n l tx d h = ground arith

-- ===== src/Mempool/History.antt =====
-- The pools that admissions and confirmations lead to from the empty one.
use vision_core.Prelude.{
  ℕ, ◌≤◌, ◌≡◌, refl, Bool, false, List, [], ◌∷◌, length, length-append, length-keep_if, All,
  All-append, All-keep_if, subst, arith, ok, Result-cases, inl, inr, leb, Bool-cases,
}
use vision_core.Prelude.Text.{Text}
use vision_core.Types.{Tx}
use vision_core.Prelude.Map.{get}
use vision_core.External.{External}
use vision_core.Transaction.{canonical_tx_id, validate_tx_stateless}
use vision_core.Mempool.{Pool, new, mempool_max, admit, remove_confirmed}
use vision_core.Mempool.Admission.{AdmissionDecision, accept, replace, evaluate}
use vision_core.Mempool.View.{Represents}
use vision_core.Mempool.Filter.{keep_ids, other_than, unconfirmed, remove_confirmed-Represents}
use vision_core.Mempool.Operations.{push, decided, admitted, admit-Represents}
use vision_core.Mempool.Slots.{
  Slots, taken, Slots-keep_if, Slots-append, taken-keep_ids, evaluate-accept, evaluate-replace,
  evaluate-valid,
}

module _ ⦃ext : External⦄ where
  -- A list that a pool may hold: within the limit, one transaction for each sender and nonce, and each
  -- valid without state.
  pub record IsPool (l : List Tx) : Type 0 where
    pub bound : length l ≤ mempool_max
    pub slots : Slots l
    pub valid : All (λ tx. validate_tx_stateless tx ≡ ok tt) l

  keep_ids-IsPool : (r : Text → Bool) (l : List Tx) → IsPool l → IsPool (keep_ids r l)
  keep_ids-IsPool r l p = record {
    bound = omega (arith, p.bound, length-keep_if (λ tx. r (canonical_tx_id tx)) l);
    slots = Slots-keep_if (λ tx. r (canonical_tx_id tx)) l p.slots;
    valid =
        All-keep_if (λ tx. validate_tx_stateless tx ≡ ok tt) (λ tx. r (canonical_tx_id tx)) l
          p.valid;
  }

  push-IsPool :
      (l : List Tx) (tx : Tx)
      → IsPool l
      → taken tx l ≡ false
      → validate_tx_stateless tx ≡ ok tt
      → IsPool (push l tx)
  push-IsPool [] tx p t v = record { bound = omega arith; slots = (refl, tt); valid = (v, tt) }
  push-IsPool (x ∷ l) tx p t v = elim (Bool-cases (leb mempool_max (length (x ∷ l)))) [
    | inl e ↦ rw e (record {
      bound = ground (arith, length-append l (tx ∷ []), p.bound);
      slots = Slots-append l tx p.slots.1 (ground (arith, t));
      valid = All-append (λ tx. validate_tx_stateless tx ≡ ok tt) l (tx ∷ []) p.valid.1 (v, tt);
    })
    | inr e ↦ rw e (record {
      bound = ground (arith, length-append (x ∷ l) (tx ∷ []), e);
      slots = Slots-append (x ∷ l) tx p.slots t;
      valid = All-append (λ tx. validate_tx_stateless tx ≡ ok tt) (x ∷ l) (tx ∷ []) p.valid (v, tt);
    })
  ]

  decided-IsPool :
      (n : ℕ) (l : List Tx) (tx : Tx) (d : AdmissionDecision)
      → IsPool l
      → evaluate n l tx ≡ ok d
      → IsPool (decided l tx d)
  decided-IsPool n l tx accept p e =
      push-IsPool l tx p (evaluate-accept n l tx e) (evaluate-valid n l tx accept e)
  decided-IsPool n l tx (replace id) p e =
      let (existing, found, same, higher) = evaluate-replace n l tx id e in
      push-IsPool (keep_ids (other_than id) l) tx (keep_ids-IsPool (other_than id) l p)
        (subst (λ i. taken tx (keep_ids (other_than i) l) ≡ false) same
          (taken-keep_ids tx existing l p.slots found))
        (evaluate-valid n l tx (replace id) e)

  admitted-IsPool :
      (n : ℕ) (l : List Tx) (tx : Tx) → IsPool l → IsPool (admitted l tx (evaluate n l tx))
  admitted-IsPool n l tx p = elim (Result-cases (evaluate n l tx)) [
    | inl (d, e) ↦ rw e (decided-IsPool n l tx d p e)
    | inr (x, e) ↦ rw e p
  ]

  -- A history of the pool: admissions at any account nonce, and confirmations of any ids.
  pub data Reach : Pool → Type 0 where
    start : Reach new
    admits :
        {p : Pool} → Reach p → (tx : Tx) (current_nonce : ℕ) → Reach (admit p tx current_nonce).0
    confirms : {p : Pool} → Reach p → (tx_ids : List Text) → Reach (remove_confirmed p tx_ids)

  pub empty-Represents : Represents new []
  unfolding get
  empty-Represents = record { order = refl; distinct = tt; lookup = λ id. refl; sorted = tt }

  -- Every pool of a history holds a list of at most 10000 transactions with distinct ids, no two with
  -- the same sender and nonce, each of which passes the stateless rules; map and queue agree on it.
  pub Reach-IsPool : {p : Pool} → Reach p → (l : List Tx) × Represents p l × IsPool l
  Reach-IsPool start =
      ([], empty-Represents, record { bound = omega arith; slots = tt; valid = tt })
  Reach-IsPool (admits {p} r tx n) =
      let (l, h, i) = Reach-IsPool r in
      (admitted l tx (evaluate n l tx), (admit-Represents p l tx n h).1, admitted-IsPool n l tx i)
  Reach-IsPool (confirms {p} r tx_ids) =
      let (l, h, i) = Reach-IsPool r in
      (
        keep_ids (unconfirmed tx_ids) l,
        remove_confirmed-Represents p l tx_ids h,
        keep_ids-IsPool (unconfirmed tx_ids) l i,
      )

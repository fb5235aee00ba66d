-- ===== src/Mempool/Operations.antt =====
-- `insert`, `admit` and the eviction, on the abstract list.
use mathlib.Core.List.{map-append}
use vision_core.Prelude.{
  inl, inr, Bool-cases, Result-cases, subst, ℕ, ◌≡◌, refl, false, none, List, [], ◌∷◌, ◌++◌, length,
  leb, find, find-append, any, ap, arith, if◌then◌else◌, ◌∙◌, sym, Result, ok, err,
}
use vision_core.Prelude.Text.{text_eq_iff}
use vision_core.Prelude.Map.{insert}
use vision_core.Prelude.Map.Laws.{get-insert, insert-IsSorted, get-remove, remove-IsSorted}
use vision_core.Types.{Tx}
use vision_core.External.{External}
use vision_core.Transaction.{canonical_tx_id}
use vision_core.Mempool.{
  Pool, mempool_max, evict_oldest, insert_locked, drop_id, apply_decision, admit, lookup_all,
}
use vision_core.Mempool.Admission.{
  AdmissionDecision, MempoolAdmissionError, accept, replace, evaluate, same_id,
}
use vision_core.Mempool.View.{
  has_id, Distinct, Represents, length-Represents, lookup_all-Represents,
}
use vision_core.Mempool.Filter.{keep_ids, other_than, find-keep_ids, drop_id-Represents}

-- The oldest transaction leaves a full list.
abbrev pub make_room : List Tx → List Tx
make_room [] = []
make_room (tx ∷ l) = if leb mempool_max (length (tx ∷ l)) then l else tx ∷ l

abbrev pub push : List Tx → Tx → List Tx
push l tx = make_room l ++ tx ∷ []

module _ ⦃ext : External⦄ where
  evict_oldest-Represents :
      (p : Pool) (tx : Tx) (l : List Tx) → Represents p (tx ∷ l) → Represents (evict_oldest p) l
  unfolding evict_oldest
  evict_oldest-Represents p tx l h =
      subst (λ o. Represents (evict_oldest (record p { order = o })) l) (sym h.order)
        (record {
          order = refl;
          distinct = h.distinct.1;
          lookup = λ id.
              get-remove (canonical_tx_id tx) id p.by_id
              ∙ ground (arith, h.lookup id, h.distinct.0, text_eq_iff (canonical_tx_id tx) id);
          sorted = remove-IsSorted (canonical_tx_id tx) p.by_id h.sorted;
        })

  append-Distinct :
      (l : List Tx) (tx : Tx)
      → find (has_id (canonical_tx_id tx)) l ≡ none
      → Distinct l
      → Distinct (l ++ tx ∷ [])
  append-Distinct [] tx e d = (refl, tt)
  append-Distinct (t ∷ l) tx e d = (
    find-append (has_id (canonical_tx_id t)) l (tx ∷ [])
        ∙ ground (
          arith,
          d.0,
          text_eq_iff (canonical_tx_id t) (canonical_tx_id tx),
          text_eq_iff (canonical_tx_id tx) (canonical_tx_id t),
        ),
    append-Distinct l tx (ground arith) d.1,
  )

  append-Represents :
      (p : Pool) (l : List Tx) (tx : Tx)
      → find (has_id (canonical_tx_id tx)) l ≡ none
      → Represents p l
      → Represents
          (record {
            by_id = insert (canonical_tx_id tx) tx p.by_id;
            order = p.order ++ canonical_tx_id tx ∷ [];
          })
          (l ++ tx ∷ [])
  append-Represents p l tx e h = record {
    order = ap (λ o. o ++ canonical_tx_id tx ∷ []) h.order ∙ sym (map-append _ l (tx ∷ []));
    distinct = append-Distinct l tx e h.distinct;
    lookup = λ j.
        get-insert (canonical_tx_id tx) j tx p.by_id
        ∙ ground (
          arith,
          find-append (has_id j) l (tx ∷ []),
          h.lookup j,
          text_eq_iff (canonical_tx_id tx) j,
          e,
        );
    sorted = insert-IsSorted (canonical_tx_id tx) tx p.by_id h.sorted;
  }

  -- `insert_locked` pushes a new transaction behind the others, and a full pool loses its oldest.
  pub insert_locked-Represents :
      (p : Pool) (l : List Tx) (tx : Tx)
      → find (has_id (canonical_tx_id tx)) l ≡ none
      → Represents p l
      → Represents (insert_locked p (canonical_tx_id tx) tx) (push l tx)
  unfolding insert_locked
  insert_locked-Represents p [] tx e h =
      rw (length-Represents p [] h) (append-Represents p [] tx e h)
  insert_locked-Represents p (t ∷ l) tx e h =
      rw (length-Represents p (t ∷ l) h) (elim (Bool-cases (leb mempool_max (length (t ∷ l)))) [
        | inl full ↦ rw full (
            append-Represents (evict_oldest p) l tx (ground arith)
              (evict_oldest-Represents p t l h))
        | inr room ↦ rw room (append-Represents p (t ∷ l) tx e h)
      ])

  -- What a decision makes of the list.
  abbrev pub decided : List Tx → Tx → AdmissionDecision → List Tx
  decided l tx accept = push l tx
  decided l tx (replace evict_tx_id) = push (keep_ids (other_than evict_tx_id) l) tx

  any-find :
      (l : List Tx) (tx : Tx)
      → any (λ existing. same_id existing tx) l ≡ false
      → find (has_id (canonical_tx_id tx)) l ≡ none
  any-find [] tx h = refl
  any-find (t ∷ l) tx h = ground (arith, any-find l tx)

  pub evaluate-fresh :
      (current_nonce : ℕ) (l : List Tx) (tx : Tx) (d : AdmissionDecision)
      → evaluate current_nonce l tx ≡ ok d
      → find (has_id (canonical_tx_id tx)) l ≡ none
  unfolding evaluate
  evaluate-fresh current_nonce l tx d h = any-find l tx (ground arith)

  apply_decision-Represents :
      (p : Pool) (l : List Tx) (tx : Tx) (d : AdmissionDecision)
      → find (has_id (canonical_tx_id tx)) l ≡ none
      → Represents p l
      → Represents (apply_decision p tx d) (decided l tx d)
  unfolding apply_decision
  apply_decision-Represents p l tx accept e h = insert_locked-Represents p l tx e h
  apply_decision-Represents p l tx (replace evict) e h =
      insert_locked-Represents (drop_id p evict) (keep_ids (other_than evict) l) tx
        (ground (arith, find-keep_ids (other_than evict) (canonical_tx_id tx) l, e))
        (drop_id-Represents p l evict h)

  -- The list after an admission, and the admission's result.
  abbrev pub admitted : List Tx → Tx → Result AdmissionDecision MempoolAdmissionError → List Tx
  admitted l tx (ok d) = decided l tx d
  admitted l tx (err e) = l

  admit_lem :
      (p : Pool) (l : List Tx) (tx : Tx) (current_nonce : ℕ)
      → lookup_all p.by_id p.order ≡ l
      → ((d : AdmissionDecision)
          → evaluate current_nonce l tx ≡ ok d
          → admit p tx current_nonce ≡ (apply_decision p tx d, ok d))
        × ((e : MempoolAdmissionError)
            → evaluate current_nonce l tx ≡ err e
            → admit p tx current_nonce ≡ (p, err e))
  unfolding admit
  admit_lem p l tx current_nonce h = (λ d e. rw (h, e, admit) refl, λ x e. rw (h, e, admit) refl)

  -- `admit` refines the list: it returns what the policy says of the list, and leaves a pool that holds
  -- the list with the admitted transaction behind the others, the replaced one removed and, from a full
  -- pool, the oldest one evicted; a refusal changes nothing.
  pub admit-Represents :
      (p : Pool) (l : List Tx) (tx : Tx) (current_nonce : ℕ)
      → Represents p l
      → ((admit p tx current_nonce).1 ≡ evaluate current_nonce l tx)
        × Represents (admit p tx current_nonce).0 (admitted l tx (evaluate current_nonce l tx))
  admit-Represents p l tx current_nonce h =
      let unique = admit_lem p l tx current_nonce (lookup_all-Represents p l h) in
      elim (Result-cases (evaluate current_nonce l tx)) [
        | inl (d, e) ↦
            rw (unique.0 d e, e)
              (refl, apply_decision-Represents p l tx d (evaluate-fresh current_nonce l tx d e) h)
        | inr (x, e) ↦ rw (unique.1 x e, e) (refl, h)
      ]

-- ===== src/Mempool/View.antt =====
-- The abstract view of the pool: a list of transactions, oldest first, with distinct ids.
use vision_core.Prelude.Map.Laws.{get-remove, remove-IsSorted}
use vision_core.Prelude.Map.Total.{length-remove}
use vision_core.Prelude.{
  All-imp, ◌∙◌, ◌≡◌, refl, Bool, none, some, List, [], ◌∷◌, map, length, find, All, ap, arith,
}
use vision_core.Prelude.Text.{Text, text_eq, text_eq_iff, text_eq_refl}
use vision_core.Prelude.Map.{Map, get, remove, IsSorted}
use vision_core.Types.{Tx}
use vision_core.External.{External}
use vision_core.Transaction.{canonical_tx_id}
use vision_core.Mempool.{Pool, lookup_all}

module _ ⦃ext : External⦄ where
  abbrev pub ids : List Tx → List Text
  ids = map (λ tx. canonical_tx_id tx)

  abbrev pub has_id : Text → Tx → Bool
  has_id id tx = text_eq (canonical_tx_id tx) id

  -- No two entries have the same id.
  abbrev pub Distinct : List Tx → Type 0
  Distinct [] = Unit
  Distinct (tx ∷ l) = (find (has_id (canonical_tx_id tx)) l ≡ none) × Distinct l

  -- The pool holds exactly the transactions of the list, in its order, each under its own id.
  pub record Represents (p : Pool) (l : List Tx) : Type 0 where
    pub order : p.order ≡ ids l
    pub distinct : Distinct l
    pub lookup : (id : Text) → get id p.by_id ≡ find (has_id id) l
    pub sorted : IsSorted p.by_id

  pub find-Distinct :
      (l : List Tx) → Distinct l → All (λ tx. find (has_id (canonical_tx_id tx)) l ≡ some tx) l
  find-Distinct [] d = tt
  find-Distinct (tx ∷ l) d = (
    ground (arith, text_eq_refl (canonical_tx_id tx)),
    All-imp (λ t. find (has_id (canonical_tx_id t)) l ≡ some t)
        (λ t. find (has_id (canonical_tx_id t)) (tx ∷ l) ≡ some t) l
        (λ t e. ground (arith, d.0, text_eq_iff (canonical_tx_id tx) (canonical_tx_id t)))
        (find-Distinct l d.1),
  )

  lookup_all-ids :
      (by_id : Map Tx) (l : List Tx)
      → All (λ tx. get (canonical_tx_id tx) by_id ≡ some tx) l
      → lookup_all by_id (ids l) ≡ l
  unfolding lookup_all
  lookup_all-ids by_id [] h = refl
  lookup_all-ids by_id (tx ∷ l) h = rw (h.0, lookup_all) (ap (◌∷◌ tx) (lookup_all-ids by_id l h.1))

  pub each-lookup :
      (by_id : Map Tx) (l m : List Tx)
      → ((id : Text) → get id by_id ≡ find (has_id id) m)
      → All (λ tx. find (has_id (canonical_tx_id tx)) m ≡ some tx) l
      → All (λ tx. get (canonical_tx_id tx) by_id ≡ some tx) l
  each-lookup by_id l m h =
      All-imp (λ tx. find (has_id (canonical_tx_id tx)) m ≡ some tx) _ l
        (λ tx e. h (canonical_tx_id tx) ∙ e)

  -- Reading the whole queue gives the list back.
  pub lookup_all-Represents :
      (p : Pool) (l : List Tx) → Represents p l → lookup_all p.by_id p.order ≡ l
  lookup_all-Represents p l r =
      rw r.order
        (lookup_all-ids p.by_id l (each-lookup p.by_id l l r.lookup (find-Distinct l r.distinct)))

  -- A map that holds a list's transactions, each under its id, is as long as the list.
  pub length-lookup :
      (l : List Tx) (m : Map Tx)
      → Distinct l
      → IsSorted m
      → ((id : Text) → get id m ≡ find (has_id id) l)
      → length m ≡ length l
  length-lookup [] [] d s h = refl
  length-lookup [] ((k, t) ∷ m) d s h = absurd (unfold get in ground (arith, h k, text_eq_refl k))
  length-lookup (tx ∷ l) m d s h = omega (
    arith,
    length-remove (canonical_tx_id tx) tx m s
        (h (canonical_tx_id tx) ∙ (find-Distinct (tx ∷ l) d).0),
    length-lookup l (remove (canonical_tx_id tx) m) d.1 (remove-IsSorted _ m s) (λ id.
        get-remove (canonical_tx_id tx) id m
        ∙ ground (arith, h id, d.0, text_eq_iff (canonical_tx_id tx) id)),
  )

  pub length-Represents : (p : Pool) (l : List Tx) → Represents p l → length p.by_id ≡ length l
  length-Represents p l r = length-lookup l p.by_id r.distinct r.sorted r.lookup

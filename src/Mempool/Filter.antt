-- ===== src/Mempool/Filter.antt =====
-- The pool's removals on the abstract list: `retain` by id, and `remove_confirmed`.
use vision_core.Prelude.{
  ◌≡◌, refl, Bool, not, none, some, List, [], ◌∷◌, keep_if, find, any, All, All-imp, arith,
  if◌then◌else◌, ◌∙◌,
}
use vision_core.Prelude.Text.{Text, text_eq, text_eq_iff}
use vision_core.Prelude.Map.{Map, get, remove, IsSorted, contains_key}
use vision_core.Prelude.Map.Laws.{get-remove, remove-IsSorted}
use vision_core.Types.{Tx}
use vision_core.External.{External}
use vision_core.Transaction.{canonical_tx_id}
use vision_core.Mempool.{Pool, drop_id, remove_all, remove_confirmed}
use vision_core.Mempool.View.{ids, has_id, Distinct, Represents, find-Distinct, each-lookup}

abbrev pub other_than : Text → Text → Bool
other_than id i = not (text_eq i id)

abbrev pub mem : Text → List Text → Bool
mem id = any (λ i. text_eq i id)

abbrev pub unconfirmed : List Text → Text → Bool
unconfirmed tx_ids i = not (mem i tx_ids)

pub get-remove_all :
    (tx_ids : List Text) (id : Text) (m : Map Tx)
    → get id (remove_all tx_ids m) ≡ (if mem id tx_ids then none else get id m)
unfolding remove_all
get-remove_all [] id m = refl
get-remove_all (i ∷ is) id m = get-remove_all is id (remove i m) ∙ ground (arith, get-remove i id m)

remove_all-IsSorted :
    (tx_ids : List Text) (m : Map Tx) → IsSorted m → IsSorted (remove_all tx_ids m)
unfolding remove_all
remove_all-IsSorted [] m s = s
remove_all-IsSorted (i ∷ is) m s = remove_all-IsSorted is (remove i m) (remove-IsSorted i m s)

module _ ⦃ext : External⦄ where
  module _ (r : Text → Bool) where
    -- Keeping by the id.
    abbrev pub keep_ids : List Tx → List Tx
    keep_ids = keep_if (λ tx. r (canonical_tx_id tx))

    pub find-keep_ids :
        (id : Text) (l : List Tx)
        → find (has_id id) (keep_ids l) ≡ (if r id then find (has_id id) l else none)
    find-keep_ids id [] = ground arith
    find-keep_ids id (tx ∷ l) =
        ground (arith, find-keep_ids id l, text_eq_iff (canonical_tx_id tx) id)

    pub keep_ids-Distinct : (l : List Tx) → Distinct l → Distinct (keep_ids l)
    keep_ids-Distinct [] d = tt
    keep_ids-Distinct (tx ∷ l) d =
        ground (arith, keep_ids-Distinct l d.1, find-keep_ids (canonical_tx_id tx) l, d.0)

    pub keep_if-ids :
        (q : Text → Bool) (l : List Tx)
        → All (λ tx. q (canonical_tx_id tx) ≡ r (canonical_tx_id tx)) l
        → keep_if q (ids l) ≡ ids (keep_ids l)
    keep_if-ids q [] h = refl
    keep_if-ids q (tx ∷ l) h = ground (arith, h.0, keep_if-ids q l h.1)

  All-refl :
      (q : Text → Bool) (l : List Tx)
      → All (λ tx. q (canonical_tx_id tx) ≡ q (canonical_tx_id tx)) l
  All-refl q [] = tt
  All-refl q (tx ∷ l) = (refl, All-refl q l)

  pub drop_id-Represents :
      (p : Pool) (l : List Tx) (id : Text)
      → Represents p l
      → Represents (drop_id p id) (keep_ids (other_than id) l)
  unfolding drop_id
  drop_id-Represents p l id h = record {
    order = rw h.order (keep_if-ids (other_than id) (other_than id) l (All-refl (other_than id) l));
    distinct = keep_ids-Distinct (other_than id) l h.distinct;
    lookup = λ j.
        get-remove id j p.by_id
        ∙ ground (
          arith,
          h.lookup j,
          find-keep_ids (other_than id) j l,
          text_eq_iff id j,
          text_eq_iff j id,
        );
    sorted = remove-IsSorted id p.by_id h.sorted;
  }

  -- `remove_confirmed` drops exactly the confirmed transactions from the list.
  pub remove_confirmed-Represents :
      (p : Pool) (l : List Tx) (tx_ids : List Text)
      → Represents p l
      → Represents (remove_confirmed p tx_ids) (keep_ids (unconfirmed tx_ids) l)
  unfolding remove_confirmed
  remove_confirmed-Represents p l tx_ids h = record {
    order = rw h.order (
        keep_if-ids (unconfirmed tx_ids) (λ id. contains_key id (remove_all tx_ids p.by_id)) l
          (All-imp (λ tx. get (canonical_tx_id tx) p.by_id ≡ some tx) _ l
            (λ tx e. ground (arith, get-remove_all tx_ids (canonical_tx_id tx) p.by_id, e))
            (each-lookup p.by_id l l h.lookup (find-Distinct l h.distinct))));
    distinct = keep_ids-Distinct (unconfirmed tx_ids) l h.distinct;
    lookup = λ j.
        get-remove_all tx_ids j p.by_id
        ∙ ground (arith, h.lookup j, find-keep_ids (unconfirmed tx_ids) j l);
    sorted = remove_all-IsSorted tx_ids p.by_id h.sorted;
  }

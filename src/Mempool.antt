-- ===== src/Mempool.antt =====
-- mempool/pool.rs: the bounded pool of pending transactions. Each method locks the pool for its whole
-- body, so a method is a function of the pool; `Requeue` makes several calls.
pub mod Admission
pub mod View
pub mod Filter
pub mod Operations
pub mod Slots
pub mod History
pub mod Requeue
use Prim.Native.Nat.Ordering.{gt, eq}
use vision_core.Prelude.{
  ℕ, Bool, true, false, not, Option, none, some, List, [], ◌∷◌, ◌++◌, leb, if◌then◌else◌, length,
  take, keep_if, Result, ok, err,
}
use vision_core.Prelude.Text.{Text, text_eq}
use vision_core.Prelude.Map.{Map, get, insert, remove, contains_key}
use vision_core.Types.{Tx}
use vision_core.External.{External}
use vision_core.Transaction.{canonical_tx_id}
use Admission.{AdmissionDecision, accept, replace, MempoolAdmissionError, evaluate}

abbrev pub mempool_max : ℕ
mempool_max = 10000

pub record Pool : Type 0 where
  pub by_id : Map Tx
  pub order : List Text

-- `Pool::new`
abbrev pub new : Pool
new = record { by_id = []; order = [] }

-- The transactions that the ids of a queue stand for.
unfoldable pub lookup_all : Map Tx → List Text → List Tx
lookup_all by_id [] = []
lookup_all by_id (id ∷ rest) = elim (get id by_id) [
  | none ↦ lookup_all by_id rest
  | some tx ↦ tx ∷ lookup_all by_id rest
]

-- The eviction at the head of `insert_locked`.
unfoldable pub evict_oldest : Pool → Pool
evict_oldest pool = elim pool.order [
  | [] ↦ pool
  | evict_id ∷ rest ↦ record { by_id = remove evict_id pool.by_id; order = rest }
]

unfoldable pub insert_locked : Pool → Text → Tx → Pool
insert_locked pool id tx =
    let p = if leb mempool_max (length pool.by_id) then evict_oldest pool else pool in
    record { by_id = insert id tx p.by_id; order = p.order ++ id ∷ [] }

-- `order.retain(|id| id != evict)` beside `by_id.remove(evict)`
unfoldable pub drop_id : Pool → Text → Pool
drop_id pool id = record {
  by_id = remove id pool.by_id;
  order = keep_if (λ i. not (text_eq i id)) pool.order;
}

unfoldable pub remove_all : List Text → Map Tx → Map Tx
remove_all [] by_id = by_id
remove_all (id ∷ ids) by_id = remove_all ids (remove id by_id)

unfoldable pub remove_confirmed : Pool → List Text → Pool
unfolding remove_all
remove_confirmed pool tx_ids =
    let by_id = remove_all tx_ids pool.by_id in
    record { by_id = by_id; order = keep_if (λ id. contains_key id by_id) pool.order }

abbrev pub has : Pool → Text → Bool
has pool tx_id = contains_key tx_id pool.by_id

abbrev pub get_tx : Pool → Text → Option Tx
get_tx pool tx_id = get tx_id pool.by_id

abbrev pub len : Pool → ℕ
len pool = length pool.by_id

abbrev pub list_ids : Pool → List Text
list_ids pool = pool.order

unfoldable pub select_for_block : Pool → ℕ → List Tx
select_for_block pool limit = lookup_all pool.by_id (take limit pool.order)

module _ ⦃ext : External⦄ where
  -- `Mempool::insert`, which skips the admission rules
  unfoldable pub insert_tx : Pool → Tx → Pool × Bool
  insert_tx pool tx =
      let id = canonical_tx_id tx in
      if contains_key id pool.by_id then (pool, false) else (insert_locked pool id tx, true)

  -- What `admit` writes for a decision.
  unfoldable pub apply_decision : Pool → Tx → AdmissionDecision → Pool
  apply_decision pool tx accept = insert_locked pool (canonical_tx_id tx) tx
  apply_decision pool tx (replace evict_tx_id) =
      insert_locked (drop_id pool evict_tx_id) (canonical_tx_id tx) tx

  unfoldable pub admit : Pool → Tx → ℕ → Pool × Result AdmissionDecision MempoolAdmissionError
  admit pool tx current_nonce =
      elim (evaluate current_nonce (lookup_all pool.by_id pool.order) tx) [
        | ok decision ↦ (apply_decision pool tx decision, ok decision)
        | err e ↦ (pool, err e)
      ]

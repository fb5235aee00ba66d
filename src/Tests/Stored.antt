-- ===== src/Tests/Stored.antt =====
-- Runs of the writes, the reads and the restoration of chain/storage.rs and chain/snapshots.rs on a
-- store in memory.
use vision_core.Prelude.{
  arith, err, ℕ, ◌≤◌, ◌≡◌, refl, ◌∙◌, ap, sym, Option, none, some, List, [], ◌∷◌, if◌then◌else◌,
  Result, ok,
}
use vision_core.Prelude.Text.{Text, text, text_eq}
use vision_core.Prelude.Bytes.{Bytes}
use vision_core.Prelude.Map.{Map, get, insert}
use vision_core.Prelude.Map.Laws.{get-insert, get-remove}
use vision_core.Types.{hash}
use vision_core.Store.{BatchOp, extension_batch, persist_canonical_extension}
use vision_core.Store.Decimal.{decimal}
use vision_core.Store.Reads.{scan_utf8, load_text}
use vision_core.Store.Laws.{after_batch, IsStore}
use vision_core.StateRoot.{
  compute_state_root, canonical_state_vector, append_balances, append_entries, sort_by_key,
  append_nonces, encode_header,
}
use vision_core.Chain.{ChainState}
use vision_core.Chain.Restore.{restore_latest_snapshot, heights_up_to}
use vision_core.Chain.Restore.Newest.{IsNewest}
use vision_core.Chain.Restore.Sound.{IsRestored, restore_latest_snapshot-IsNewest}
use vision_core.Chain.Reload.RoundTrip.{persist-read_height}
use vision_core.Chain.Reload.{stored_tip, read_height}
use vision_core.Tests.Host.{host, memory_store, write_batch}
use vision_core.Tests.Samples.{genesis_block, young_chain}

get-write_batch :
    (ops : List BatchOp) (db : Map Bytes) (j : Text) (before : Option Bytes)
    → get j db ≡ before
    → get j (write_batch db ops) ≡ after_batch ops j before
unfolding write_batch
get-write_batch [] db j before e = e
get-write_batch ((k, none) ∷ ops) db j before e =
    get-write_batch ops _ j _ (get-remove k j db ∙ ap (λ x. if text_eq k j then none else x) e)
get-write_batch ((k, some v) ∷ ops) db j before e =
    get-write_batch ops _ j _ (get-insert k j v db ∙ ap (λ x. if text_eq k j then some v else x) e)

ok-injective : (A : Type 0) (a b : A) → ◌≡◌ {A = Result A Text} (ok a) (ok b) → a ≡ b
ok-injective A a b e = cc

memory_store-IsStore : IsStore memory_store
unfolding memory_store
memory_store-IsStore = record {
  get_inserted = λ db next k j v before p g. ap ok (
      ap (get j) (sym (ok-injective (Map Bytes) (insert k v db) next p))
      ∙ get-insert k j v db
      ∙ ap (λ x. if text_eq k j then some v else x)
          (ok-injective (Option Bytes) (get j db) before g));
  get_batched = λ db next ops j before p g. ap ok (
      ap (get j) (sym (ok-injective (Map Bytes) (write_batch db ops) next p))
      ∙ get-write_batch ops db j before (ok-injective (Option Bytes) (get j db) before g));
}

-- The store with the genesis.
abbrev stored : Map Bytes
stored = write_batch [] (extension_batch genesis_block)

persist-read_height_example :
    (stored_tip stored ≡ ok (some 0))
    × (read_height stored 0 ≡ ok (hash genesis_block, genesis_block))
unfolding memory_store host persist_canonical_extension scan_utf8 decimal get
persist-read_height_example =
    persist-read_height memory_store-IsStore [] stored genesis_block none none none none refl refl
      (omega arith) refl refl refl refl refl

-- A chain whose store has its genesis and a snapshot at it.
abbrev snapshotted : ChainState (Map Bytes)
snapshotted = record young_chain {
  db = insert (text "meta:snapshot:0") (hash genesis_block) stored;
}

abbrev state_or :
    ChainState (Map Bytes) → Result (ChainState (Map Bytes) × ℕ) Text → ChainState (Map Bytes)
state_or g (ok (restored, height)) = restored
state_or g (err e) = g

restore_latest_snapshot-IsNewest_example :
    (0 ≤ 31)
    × IsRestored snapshotted 0 (state_or snapshotted (restore_latest_snapshot snapshotted 31))
    × IsNewest snapshotted 0
        (heights_up_to 31 (memory_store.scan_prefix snapshotted.db (text "meta:snapshot:")))
unfolding restore_latest_snapshot memory_store host get extension_batch decimal load_text
    compute_state_root canonical_state_vector append_balances append_entries sort_by_key
    append_nonces encode_header
restore_latest_snapshot-IsNewest_example =
    restore_latest_snapshot-IsNewest snapshotted
      (state_or snapshotted (restore_latest_snapshot snapshotted 31)) 31 0 refl

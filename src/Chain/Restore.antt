-- ===== src/Chain/Restore.antt =====
-- chain/snapshots.rs: the restoration of the account state from the newest snapshot that agrees with
-- the stored canonical chain.
pub mod Newest
pub mod Sound
use vision_core.Prelude.{
  ℕ, zero, suc, ◌+◌, ◌%◌, ◌≡◌, ◌≤◌, ◌<◌, ◌⊎◌, inl, inr, refl, ◌∙◌, sym, ap, Bool, true, false, ◌&&◌,
  ◌||◌, Option, none, some, List, [], ◌∷◌, ◌++◌, take, length, leb, ltb, ◌==◌, if◌then◌else◌,
  Result, ok, err, ◌>>=◌, ◌>>◌, ensure, ok_or, map_err, Result-cases, bind-ok, then-ok, ensure-ok,
  ok_or-ok, map_err-ok, ok-injective, arith,
}
use vision_core.Prelude.Text.{Text, text, text_eq, text_eq_iff}
use vision_core.Prelude.Bytes.{Bytes, u64_mod}
use vision_core.Prelude.Map.{Map, insert}
use vision_core.Types.{Block, hash}
use vision_core.External.{External}
use vision_core.StateRoot.{compute_state_root, nonzero}
use vision_core.Block.{null_hash}
use vision_core.Store.{Sled, load_block}
use vision_core.Store.Decimal.{decimal}
use vision_core.Store.Reads.{from_utf8, parse_u64, load_height_index}
use vision_core.Chain.{ChainState}
use vision_core.Chain.Reorg.{add_u128}

-- The account state that a snapshot holds, with its root.
pub record Snapshot : Type 0 where
  pub balances : Map ℕ
  pub nonces : Map ℕ
  pub state_root : Text

-- `strip_prefix`
unfoldable pub strip_prefix : Text → Text → Option Text
strip_prefix [] s = some s
strip_prefix (p ∷ ps) [] = none
strip_prefix (p ∷ ps) (c ∷ cs) = let rest = strip_prefix ps cs in if p == c then rest else none

-- The height in a key of a snapshot, if the key is well formed.
unfoldable pub height_of_key : Text → Option ℕ
unfolding strip_prefix from_utf8 parse_u64
height_of_key key = elim (from_utf8 key) [
  | err e ↦ none
  | ok s ↦ elim (strip_prefix (text "meta:snapshot:") s) [
    | none ↦ none
    | some digits ↦ parse_u64 digits
  ]
]

-- `(h <= max_height).then_some(h)`, before the heights of the later keys.
abbrev pub keep_height : Option ℕ → ℕ → List ℕ → List ℕ
keep_height none max_height rest = rest
keep_height (some h) max_height rest = if leb h max_height then h ∷ rest else rest

-- `filter_map` of the heights up to a greatest one.
unfoldable pub heights_up_to : ℕ → List (Text × Bytes) → List ℕ
unfolding height_of_key
heights_up_to max_height [] = []
heights_up_to max_height ((key, v) ∷ entries) =
    keep_height (height_of_key key) max_height (heights_up_to max_height entries)

unfoldable pub place_descending : ℕ → List ℕ → List ℕ
place_descending h [] = h ∷ []
place_descending h (k ∷ ks) =
    let rest = place_descending h ks in if ltb h k then k ∷ rest else h ∷ k ∷ ks

-- `sort_unstable_by(|a, b| b.cmp(a))`
unfoldable pub sort_descending : List ℕ → List ℕ
unfolding place_descending
sort_descending [] = []
sort_descending (h ∷ hs) = place_descending h (sort_descending hs)

module _ {Db : Type 0} where
  -- The loop that rebuilds the three indices from the blocks.
  unfoldable pub index_blocks : ℕ → ChainState Db → List Block → ChainState Db
  index_blocks cw g [] = g
  index_blocks cw g (b ∷ bs) =
      let next = add_u128 cw b.header.difficulty in
      index_blocks next
        (record g {
          canon_index = insert (hash b) b.header.number g.canon_index;
          cumulative_work = insert (hash b) next g.cumulative_work;
          seen_blocks = insert (hash b) tt g.seen_blocks;
        })
        bs

  -- The account state and the blocks kept, with the indices cleared. The sum for the length to keep
  -- may wrap.
  abbrev pub truncated : ChainState Db → ℕ → Snapshot → ChainState Db
  truncated g height s = record g {
    balances = s.balances;
    nonces = s.nonces;
    blocks = take ((height + 1) % u64_mod) g.blocks;
    canon_index = [];
    cumulative_work = [];
    seen_blocks = [];
    cached_state_root = some (height, s.state_root);
  }

  -- The end of `restore_snapshot_at`, after the checks.
  unfoldable pub install : ChainState Db → ℕ → Snapshot → ChainState Db
  unfolding index_blocks
  install g height s = let g' = truncated g height s in index_blocks 0 g' g'.blocks

module _ {Db : Type 0} ⦃ext : External⦄ ⦃sled : Sled Db⦄ where
  -- A stored map, empty where none is stored.
  unfoldable pub load_map : (Bytes → Option (Map ℕ)) → Db → Text → Result (Map ℕ) Text
  load_map deserialize db key = do
    stored ← sled.db_get db key
    elim stored [ none ↦ ok [] | some bytes ↦ ok_or (deserialize bytes) (text "deserialize") ]

  -- The root that was stored with the snapshot, if any, is the computed one.
  unfoldable pub check_stored_root : Db → ℕ → Text → Result (Unit {0}) Text
  check_stored_root db height computed = do
    stored ← sled.db_get db (text "meta:snapshot_state_root:" ++ decimal height)
    elim stored [
      | none ↦ ok tt
      | some bytes ↦ do
        stored_root ← ok_or (ext.deserialize_text bytes) (text "deserialize")
        ensure (text_eq stored_root computed) (text "snapshot state root mismatch")
    ]

  -- The block stored for the height, whose hash the metadata of the snapshot must name.
  unfoldable pub snapshot_block : Db → ℕ → Result Block Text
  unfolding load_block
  snapshot_block db height = do
    stored ← sled.db_get db (text "meta:snapshot:" ++ decimal height)
    metadata_bytes ← ok_or stored (text "missing snapshot metadata")
    metadata ← ok_or (ext.deserialize_index metadata_bytes) (text "deserialize")
    ensure (metadata.0 == height) (text "snapshot metadata height mismatch")
    indexed ← load_height_index db height
    canonical_hash ← ok_or indexed (text "missing canonical height index")
    ensure (text_eq metadata.1 canonical_hash) (text "snapshot hash does not match")
    found ← load_block db canonical_hash
    ok_or found (text "canonical block missing")

  -- The checks of `restore_snapshot_at`. The genesis of the development network has no root.
  unfoldable pub checked_snapshot : Db → ℕ → Result Snapshot Text
  unfolding snapshot_block load_map check_stored_root
  checked_snapshot db height = do
    block ← snapshot_block db height
    balances ← load_map ext.deserialize_balances db (text "snap:balances:" ++ decimal height)
    nonces ← load_map ext.deserialize_nonces db (text "snap:nonces:" ++ decimal height)
    root ←
        map_err (λ e. text "restored snapshot state is invalid")
          (compute_state_root (nonzero balances) (nonzero nonces))
    check_stored_root db height root
    ensure
        (text_eq block.header.state_root root
          || ((height == 0) && text_eq block.header.state_root null_hash))
        (text "snapshot state root does not match canonical block root")
    ok (record { balances = nonzero balances; nonces = nonzero nonces; state_root = root })

  unfoldable pub restore_snapshot_at : ChainState Db → ℕ → Result (ChainState Db) Text
  unfolding install checked_snapshot
  restore_snapshot_at g height = do
    snapshot ← checked_snapshot g.db height
    ok (install g height snapshot)

  -- The loop over the heights; a refused snapshot leaves the state as it was.
  unfoldable pub restore_first : ChainState Db → List ℕ → Result (ChainState Db × ℕ) Text
  unfolding restore_snapshot_at
  restore_first g [] = err (text "no valid canonical snapshot")
  restore_first g (h ∷ hs) =
      let later = restore_first g hs in
      elim (restore_snapshot_at g h) [ err e ↦ later | ok next ↦ ok (next, h) ]

  unfoldable pub restore_latest_snapshot : ChainState Db → ℕ → Result (ChainState Db × ℕ) Text
  unfolding restore_first sort_descending heights_up_to
  restore_latest_snapshot g max_height =
      restore_first g
        (sort_descending (heights_up_to max_height (sled.scan_prefix g.db (text "meta:snapshot:"))))

-- ===== src/Chain/Orphan.antt =====
-- chain/orphan.rs: the bounded pool of blocks whose parent is not known. The promotion is in `Apply`.
pub mod Oldest
pub mod Bounds
pub mod Shape
use vision_core.Prelude.{
  ℕ, suc, ◌+◌, Option, none, some, List, [], ◌∷◌, ◌++◌, ltb, if◌then◌else◌, length, unwrap_or,
  remove_at, get_elem?,
}
use vision_core.Prelude.Text.{Text}
use vision_core.Prelude.Map.{Map, get, insert, remove}
use vision_core.Types.{Block, hash}
use vision_core.Chain.{ChainState, OrphanEntry}

abbrev pub orphan_pool_max : ℕ
orphan_pool_max = 2000

-- `values().map(|v| v.len()).sum()`
unfoldable pub count : Map (List OrphanEntry) → ℕ
count [] = 0
count ((k, v) ∷ m) = length v + count m

-- The oldest entry seen so far: its key, its position and its arrival.
abbrev pub Oldest : Type 0
Oldest = Option (Text × ℕ × ℕ)

-- The comparison is strict, so the first of equals stays.
abbrev pub older : Oldest → Text → ℕ → ℕ → Oldest
older none key pos ts = some (key, pos, ts)
older (some (k, p, old_ts)) key pos ts =
    if ltb ts old_ts then some (key, pos, ts) else some (k, p, old_ts)

unfoldable pub oldest_of : Text → ℕ → List OrphanEntry → Oldest → Oldest
oldest_of key pos [] oldest = oldest
oldest_of key pos (o ∷ os) oldest = oldest_of key (suc pos) os (older oldest key pos o.arrival)

unfoldable pub find_oldest : Map (List OrphanEntry) → Oldest → Oldest
unfolding oldest_of
find_oldest [] oldest = oldest
find_oldest ((key, entries) ∷ m) oldest = find_oldest m (oldest_of key 0 entries oldest)

-- `entries` is empty after the removal: the key goes too.
abbrev pub put_entries : Text → List OrphanEntry → Map (List OrphanEntry) → Map (List OrphanEntry)
put_entries key [] m = remove key m
put_entries key (o ∷ os) m = insert key (o ∷ os) m

-- The new entry at the end of its parent's list.
abbrev pub push_orphan : Map (List OrphanEntry) → Text → OrphanEntry → Map (List OrphanEntry)
push_orphan pool parent o = insert parent (unwrap_or (get parent pool) [] ++ o ∷ []) pool

module _ {Db : Type 0} where
  unfoldable pub evict : ChainState Db → Text → ℕ → List OrphanEntry → ChainState Db
  evict g key pos entries = elim (get_elem? entries pos) [
    | none ↦ g
    | some evicted ↦ record g {
      orphan_pool = put_entries key (remove_at pos entries) g.orphan_pool;
      orphan_by_hash = remove (hash evicted.block) g.orphan_by_hash;
    }
  ]

  unfoldable pub prune_old_orphans : ChainState Db → ChainState Db
  unfolding find_oldest count evict
  prune_old_orphans g =
      if ltb (count g.orphan_pool) orphan_pool_max
      then g
      else elim (find_oldest g.orphan_pool none) [
        | none ↦ g
        | some (key, pos, ts) ↦ elim (get key g.orphan_pool) [
          | none ↦ g
          | some entries ↦ evict g key pos entries
        ]
      ]

  unfoldable pub add_orphan : ℕ → ChainState Db → Block → Text → ChainState Db
  unfolding prune_old_orphans
  add_orphan now g block source_peer =
      let parent = block.header.parent_hash in
      let pruned = prune_old_orphans g in
      record pruned {
        orphan_by_hash = insert (hash block) parent pruned.orphan_by_hash;
        orphan_pool =
            push_orphan pruned.orphan_pool parent
              (record { block = block; arrival = now; peer = source_peer });
      }

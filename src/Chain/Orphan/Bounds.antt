-- ===== src/Chain/Orphan/Bounds.antt =====
-- The size of the orphan pool: what eviction and insertion do to it.
use vision_core.Prelude.{
  ℕ, zero, suc, ◌+◌, ◌-◌, ◌≡◌, refl, none, some, List, [], ◌∷◌, ◌++◌, length, length-append,
  unwrap_or, remove_at, get_elem?, arith, true, false, inl, inr, ◌⊎◌, Option-cases, Bool-cases,
  subst, ltb, if◌then◌else◌,
}
use vision_core.Prelude.Text.{Text, text_eq_iff}
use vision_core.Prelude.Map.{get, insert, remove, IsSorted}
use vision_core.Prelude.Map.Laws.{get-After, After-trans, insert-IsSorted, remove-IsSorted}
use vision_core.Prelude.Map.Total.{remove-After}
use vision_core.Types.{Block}
use vision_core.Chain.{ChainState, OrphanEntry}
use vision_core.Chain.Orphan.{
  count, orphan_pool_max, find_oldest, put_entries, evict, prune_old_orphans, push_orphan,
  add_orphan,
}
use vision_core.Chain.Orphan.Oldest.{Pool, Found, find_oldest-Found, find_oldest-none, get-entries}

pub count-insert :
    (k : Text) (v : List OrphanEntry) (m : Pool)
    → IsSorted m
    → count (insert k v m) + length (unwrap_or (get k m) []) ≡ count m + length v
unfolding count insert get
count-insert k v [] s = omega arith
count-insert k v ((j, w) ∷ m) s =
    ground (arith, count-insert k v m s.1, get-After k m, After-trans k j m, s.0)

pub count-remove :
    (k : Text) (v : List OrphanEntry) (m : Pool)
    → IsSorted m
    → get k m ≡ some v
    → count (remove k m) + length v ≡ count m
unfolding count remove get
count-remove k v [] s h = cc
count-remove k v ((j, w) ∷ m) s h =
    ground (arith, count-remove k v m s.1, text_eq_iff k j, remove-After k m, s.0)

length-remove_at :
    (v : List OrphanEntry) (pos : ℕ) (o : OrphanEntry)
    → get_elem? v pos ≡ some o
    → length (remove_at pos v) + 1 ≡ length v
length-remove_at [] pos o h = cc
length-remove_at (x ∷ v) zero o h = omega arith
length-remove_at (x ∷ v) (suc pos) o h = omega (arith, length-remove_at v pos o h)

put_entries-count :
    (key : Text) (v w : List OrphanEntry) (m : Pool)
    → IsSorted m
    → get key m ≡ some v
    → count (put_entries key w m) + length v ≡ count m + length w
put_entries-count key v [] m s h = omega (arith, count-remove key v m s h)
put_entries-count key v (o ∷ w) m s h = ground (arith, count-insert key (o ∷ w) m s, h)

put_entries-IsSorted :
    (key : Text) (w : List OrphanEntry) (m : Pool) → IsSorted m → IsSorted (put_entries key w m)
put_entries-IsSorted key [] m s = remove-IsSorted key m s
put_entries-IsSorted key (o ∷ w) m s = insert-IsSorted key (o ∷ w) m s

pub count-push :
    (pool : Pool) (parent : Text) (o : OrphanEntry)
    → IsSorted pool
    → count (push_orphan pool parent o) ≡ count pool + 1
count-push pool parent o s = omega (
  arith,
  count-insert parent (unwrap_or (get parent pool) [] ++ o ∷ []) pool s,
  length-append (unwrap_or (get parent pool) []) (o ∷ []),
)

-- The entry that a full pool evicts, and the pool without it.
pub record Evicts {Db : Type 0} (g : ChainState Db) : Type 0 where
  pub key : Text
  pub pos : ℕ
  pub entries : List OrphanEntry
  pub entry : OrphanEntry
  pub holds : get key g.orphan_pool ≡ some entries
  pub at : get_elem? entries pos ≡ some entry
  pub pool :
      (prune_old_orphans g).orphan_pool ≡ put_entries key (remove_at pos entries) g.orphan_pool

module _ {Db : Type 0} where
  prune-room :
      (g : ChainState Db)
      → ltb (count g.orphan_pool) orphan_pool_max ≡ true
      → prune_old_orphans g ≡ g
  unfolding prune_old_orphans
  prune-room g e = rw e refl

  prune-evict :
      (g : ChainState Db) (key : Text) (pos ts : ℕ) (v : List OrphanEntry) (o : OrphanEntry)
      → ltb (count g.orphan_pool) orphan_pool_max ≡ false
      → find_oldest g.orphan_pool none ≡ some (key, pos, ts)
      → get key g.orphan_pool ≡ some v
      → get_elem? v pos ≡ some o
      → (prune_old_orphans g).orphan_pool ≡ put_entries key (remove_at pos v) g.orphan_pool
  unfolding prune_old_orphans evict
  prune-evict g key pos ts v o full e ev eo = rw (full, e, ev) (rw (eo, evict) refl)

  prune-cases :
      (g : ChainState Db)
      → IsSorted g.orphan_pool
      → ((ltb (count g.orphan_pool) orphan_pool_max ≡ true) × (prune_old_orphans g ≡ g))
        ⊎ ((ltb (count g.orphan_pool) orphan_pool_max ≡ false) × Evicts g)
  prune-cases g s = elim (Bool-cases (ltb (count g.orphan_pool) orphan_pool_max)) [
    | inl room ↦ inl (room, prune-room g room)
    | inr full ↦ elim (Option-cases (find_oldest g.orphan_pool none)) [
      | inl e ↦ absurd (ground (arith, find_oldest-none g.orphan_pool e, full))
      | inr ((key, pos, ts), e) ↦
          let found =
            subst (λ o. Found g.orphan_pool o) e
              (find_oldest-Found g.orphan_pool g.orphan_pool none (get-entries g.orphan_pool s)
                tt) in
          inr (
            full,
            record {
              key = key;
              pos = pos;
              entries = found.0;
              entry = found.1;
              holds = found.2;
              at = found.3;
              pool = prune-evict g key pos ts found.0 found.1 full e found.2 found.3;
            },
          )
    ]
  ]

  -- A pool at its limit loses exactly one block to make room, and a smaller pool none.
  pub count-prune :
      (g : ChainState Db)
      → IsSorted g.orphan_pool
      → count (prune_old_orphans g).orphan_pool ≡ (
          if ltb (count g.orphan_pool) orphan_pool_max
          then count g.orphan_pool
          else count g.orphan_pool - 1)
  count-prune g s = elim (prune-cases g s) [
    | inl (room, e) ↦ rw (e, room) refl
    | inr (full, v) ↦
        rw (v.pool, full)
          (omega (
            arith,
            put_entries-count v.key v.entries (remove_at v.pos v.entries) g.orphan_pool s v.holds,
            length-remove_at v.entries v.pos v.entry v.at,
          ))
  ]

  pub prune-IsSorted :
      (g : ChainState Db) → IsSorted g.orphan_pool → IsSorted (prune_old_orphans g).orphan_pool
  prune-IsSorted g s = elim (prune-cases g s) [
    | inl (room, e) ↦ rw e s
    | inr (full, v) ↦
        rw v.pool (put_entries-IsSorted v.key (remove_at v.pos v.entries) g.orphan_pool s)
  ]

  -- A new orphan is always stored, and the pool never grows beyond its limit.
  pub count-add_orphan :
      (now : ℕ) (g : ChainState Db) (block : Block) (source_peer : Text)
      → IsSorted g.orphan_pool
      → count (add_orphan now g block source_peer).orphan_pool ≡ (
          if ltb (count g.orphan_pool) orphan_pool_max
          then count g.orphan_pool + 1
          else count g.orphan_pool)
  unfolding add_orphan
  count-add_orphan now g block source_peer s = ground (
    arith,
    count-push (prune_old_orphans g).orphan_pool block.header.parent_hash
        (record { block = block; arrival = now; peer = source_peer }) (prune-IsSorted g s),
    count-prune g s,
  )

  pub add_orphan-IsSorted :
      (now : ℕ) (g : ChainState Db) (block : Block) (source_peer : Text)
      → IsSorted g.orphan_pool
      → IsSorted (add_orphan now g block source_peer).orphan_pool
  unfolding add_orphan
  add_orphan-IsSorted now g block source_peer s =
      insert-IsSorted block.header.parent_hash _ (prune_old_orphans g).orphan_pool
        (prune-IsSorted g s)

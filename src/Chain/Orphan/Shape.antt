-- ===== src/Chain/Orphan/Shape.antt =====
-- Eviction and insertion change the orphan maps of the chain and nothing else.
use vision_core.Prelude.{
  ℕ, ◌≡◌, refl, ap, inl, inr, none, List, remove_at, get_elem?, Option-cases, Bool-cases, ltb,
}
use vision_core.Prelude.Text.{Text}
use vision_core.Prelude.Map.{Map, get, remove}
use vision_core.Types.{Block, hash}
use vision_core.Chain.{ChainState, OrphanEntry}
use vision_core.Chain.Orphan.{
  count, orphan_pool_max, find_oldest, put_entries, evict, prune_old_orphans, add_orphan,
}

module _ {Db : Type 0} where
  -- The chain with other orphan maps.
  abbrev pub with_orphans : ChainState Db → Map (List OrphanEntry) → Map Text → ChainState Db
  with_orphans g pool by_hash = record g { orphan_pool = pool; orphan_by_hash = by_hash }

  abbrev pub Differs : ChainState Db → ChainState Db → Type 0
  Differs g h =
      (pool : Map (List OrphanEntry)) × (by_hash : Map Text) × (h ≡ with_orphans g pool by_hash)

  same : (g : ChainState Db) → Differs g g
  same g = (g.orphan_pool, g.orphan_by_hash, refl)

  evict-Differs :
      (g : ChainState Db) (key : Text) (pos : ℕ) (v : List OrphanEntry)
      → Differs g (evict g key pos v)
  unfolding evict
  evict-Differs g key pos v = elim (Option-cases (get_elem? v pos)) [
    | inl e ↦ rw (e, evict) (same g)
    | inr (o, e) ↦
        rw (e, evict)
          (
            put_entries key (remove_at pos v) g.orphan_pool,
            remove (hash o.block) g.orphan_by_hash,
            refl,
          )
  ]

  prune-Differs : (g : ChainState Db) → Differs g (prune_old_orphans g)
  unfolding prune_old_orphans
  prune-Differs g = elim (Bool-cases (ltb (count g.orphan_pool) orphan_pool_max)) [
    | inl room ↦ rw (room, prune_old_orphans) (same g)
    | inr full ↦
        rw (full, prune_old_orphans)
          (elim (Option-cases (find_oldest g.orphan_pool none)) [
            | inl e ↦ rw e (same g)
            | inr ((key, pos, ts), e) ↦ rw e (elim (Option-cases (get key g.orphan_pool)) [
              | inl ev ↦ rw ev (same g)
              | inr (v, ev) ↦ rw ev (evict-Differs g key pos v)
            ])
          ])
  ]

  pub add_orphan-Differs :
      (now : ℕ) (g : ChainState Db) (block : Block) (source_peer : Text)
      → Differs g (add_orphan now g block source_peer)
  unfolding add_orphan
  add_orphan-Differs now g block source_peer =
      let (pool, by_hash, e) = prune-Differs g in
      (
        (add_orphan now g block source_peer).orphan_pool,
        (add_orphan now g block source_peer).orphan_by_hash,
        ap
            (λ p.
              with_orphans p (add_orphan now g block source_peer).orphan_pool
                (add_orphan now g block source_peer).orphan_by_hash)
            e,
      )

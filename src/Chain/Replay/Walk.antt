-- ===== src/Chain/Replay/Walk.antt =====
-- The walk through the side blocks: its fuel is enough, since timestamps fall along it.
use vision_core.Prelude.{
  ℕ, zero, suc, ◌≤◌, ◌<◌, ◌≡◌, refl, some, List, [], ◌∷◌, Option-cases, inl, inr, arith,
}
use vision_core.Prelude.Text.{Text}
use vision_core.Prelude.Map.{get}
use vision_core.Types.{Block}
use vision_core.Chain.{ChainState}
use vision_core.Chain.Replay.{walk_back, walk_fuel}

-- A side block is younger than its parent among the side blocks.
abbrev pub Rising : {Db : Type 0} → ChainState Db → Type 0
Rising g =
    (h : Text) (blk parent : Block)
    → get h g.side_blocks ≡ some blk
    → get blk.header.parent_hash g.side_blocks ≡ some parent
    → parent.header.timestamp < blk.header.timestamp

module _ {Db : Type 0} (g : ChainState Db) (rising : Rising g) where
  walk_fuel-parent :
      (current : Text) (blk : Block)
      → get current g.side_blocks ≡ some blk
      → suc (walk_fuel g blk.header.parent_hash) ≤ walk_fuel g current
  unfolding walk_fuel
  walk_fuel-parent current blk e = elim (Option-cases (get blk.header.parent_hash g.side_blocks)) [
    | inl n ↦ rw (e, n, walk_fuel) (omega arith)
    | inr (p, n) ↦ rw (e, n, walk_fuel) (omega (arith, rising current blk p e n))
  ]

  walk_fuel-pos : (current : Text) → 1 ≤ walk_fuel g current
  unfolding walk_fuel
  walk_fuel-pos current = ground arith

  -- Any two amounts of fuel that are enough give the same walk.
  walk_back-Agree :
      (a b : ℕ) (current : Text) (branch : List Block)
      → walk_fuel g current ≤ a
      → walk_fuel g current ≤ b
      → walk_back a g current branch ≡ walk_back b g current branch
  unfolding walk_back
  walk_back-Agree zero b current branch ha hb = absurd (omega (arith, walk_fuel-pos current))
  walk_back-Agree (suc a) zero current branch ha hb = absurd (omega (arith, walk_fuel-pos current))
  walk_back-Agree (suc a) (suc b) current branch ha hb =
      elim (Option-cases (get current g.canon_index)) [
        | inr (height, e) ↦ rw (e, walk_back) refl
        | inl e ↦
            rw (e, walk_back)
              (elim (Option-cases (get current g.side_blocks)) [
                | inl n ↦ rw n refl
                | inr (blk, n) ↦ rw n (
                    walk_back-Agree a b blk.header.parent_hash (blk ∷ branch)
                      (omega (arith, walk_fuel-parent current blk n))
                      (omega (arith, walk_fuel-parent current blk n)))
              ])
      ]

  pub walk_back-fuel :
      (fuel : ℕ) (current : Text)
      → walk_fuel g current ≤ fuel
      → walk_back fuel g current [] ≡ walk_back (walk_fuel g current) g current []
  walk_back-fuel fuel current h =
      walk_back-Agree fuel (walk_fuel g current) current [] h (omega arith)

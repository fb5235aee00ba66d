-- ===== src/Chain/Reload.antt =====
-- chain/storage.rs and chain/state.rs: the reload of the stored chain at startup, and the tip written for it.
pub mod RoundTrip
use vision_core.Prelude.{
  ℕ, zero, suc, ◌+◌, ◌≡◌, refl, ◌∙◌, sym, ap, Option, none, some, List, [], ◌∷◌, ◌++◌, length,
  is_some, if◌then◌else◌, Result, ok, err, ◌>>=◌, ok_or, Result-cases, inl, inr,
}
use mathlib.Core.List.{append_assoc, append-nil}
use vision_core.Prelude.Text.{Text, text}
use vision_core.Prelude.Map.{insert}
use vision_core.Types.{Block}
use vision_core.External.{External}
use vision_core.Store.{Sled, load_block, tip_height_key, tip_hash_key, write_each}
use vision_core.Store.Decimal.{decimal}
use vision_core.Store.Reads.{from_utf8, parse_u64, load_height_index, load_meta}
use vision_core.Chain.{ChainState, empty, tip_hash, current_height}
use vision_core.Chain.Reorg.{add_u128}

failed : (x : Text) → ◌≡◌ {A = Result (Unit {0}) Text} (err x) (ok tt) → ⊥
failed x e = cc

module _ {Db : Type 0} ⦃ext : External⦄ ⦃sled : Sled Db⦄ where
  -- The hash and the block stored for a height.
  unfoldable pub read_height : Db → ℕ → Result (Text × Block) Text
  read_height db height = do
    indexed ← load_height_index db height
    h ← ok_or indexed (text "height index missing")
    stored ← load_block db h
    block ← ok_or stored (text "block missing")
    ok (h, block)

  -- What the loop does with a block: the state, with the work up to it.
  abbrev pub append_loaded : ChainState Db → Text → Block → ℕ → ChainState Db
  append_loaded g h block cumulative = record g {
    seen_blocks = insert h tt g.seen_blocks;
    canon_index = insert h block.header.number g.canon_index;
    cumulative_work = insert h cumulative g.cumulative_work;
    blocks = g.blocks ++ block ∷ [];
  }

  -- `for h in 0..=tip_height`, of `count` heights; what was loaded stays when a later height fails.
  unfoldable pub load_heights : ℕ → ℕ → ℕ → ChainState Db → ChainState Db × Result (Unit {0}) Text
  unfolding read_height
  load_heights zero height cumulative g = (g, ok tt)
  load_heights (suc count) height cumulative g = elim (read_height g.db height) [
    | err e ↦ (g, err e)
    | ok (h, block) ↦
        let next = add_u128 cumulative block.header.difficulty in
        load_heights count (height + 1) next (append_loaded g h block next)
  ]

  -- The stored height of the tip, if there is a chain.
  unfoldable pub stored_tip : Db → Result (Option ℕ) Text
  unfolding from_utf8 parse_u64
  stored_tip db = do
    stored ← sled.db_get db tip_height_key
    elim stored [
      | none ↦ ok none
      | some bytes ↦ do
        digits ← from_utf8 bytes
        tip_height ← ok_or (parse_u64 digits) (text "invalid digit")
        ok (some tip_height)
    ]

  unfoldable pub load_canon_chain : ChainState Db → ChainState Db × Result (Unit {0}) Text
  unfolding load_heights stored_tip
  load_canon_chain g = elim (stored_tip g.db) [
    | err e ↦ (g, err e)
    | ok none ↦ (g, ok tt)
    | ok (some tip_height) ↦ load_heights (tip_height + 1) 0 0 g
  ]

  -- `open_with_genesis` on an opened database: a failed reload is fatal where a tip is stored.
  unfoldable pub open_with_genesis : Db → Result (ChainState Db) Text
  unfolding load_canon_chain
  open_with_genesis db = do
    tip ← load_meta db (text "tip_height")
    let (state, loaded) = load_canon_chain (empty db)
    elim loaded [ ok u ↦ ok state | err e ↦ if is_some tip then err e else ok state ]

  unfoldable pub persist_tip : ChainState Db → Db × Result (Unit {0}) Text
  unfolding write_each
  persist_tip g =
      write_each g.db
        ((tip_hash_key, tip_hash g) ∷ (tip_height_key, decimal (current_height g)) ∷ [])

  -- The blocks are those stored for the heights from a first one on.
  abbrev pub Loaded : Db → ℕ → List Block → Type 0
  Loaded db height [] = Unit
  Loaded db height (b ∷ bs) =
      ((h : Text) × (read_height db height ≡ ok (h, b))) × Loaded db (height + 1) bs

  load_heights-missing :
      (count height cumulative : ℕ) (g : ChainState Db) (x : Text)
      → read_height g.db height ≡ err x
      → load_heights (suc count) height cumulative g ≡ (g, err x)
  unfolding load_heights
  load_heights-missing count height cumulative g x r = rw (r, load_heights)

  load_heights-stored :
      (count height cumulative : ℕ) (g : ChainState Db) (h : Text) (block : Block)
      → read_height g.db height ≡ ok (h, block)
      → load_heights (suc count) height cumulative g
        ≡ load_heights count
            (height + 1)
            (add_u128 cumulative block.header.difficulty)
            (append_loaded g h block (add_u128 cumulative block.header.difficulty))
  unfolding load_heights
  load_heights-stored count height cumulative g h block r = rw (r, load_heights)

  -- A run of the loop that succeeds appends as many blocks as there are heights, each the one stored
  -- for its height.
  pub load_heights-Loaded :
      (count height cumulative : ℕ) (g g' : ChainState Db)
      → load_heights count height cumulative g ≡ (g', ok tt)
      → (bs : List Block) × (g'.blocks ≡ g.blocks ++ bs)
        × (length bs ≡ count)
        × Loaded g.db height bs
  unfolding load_heights
  load_heights-Loaded zero height cumulative g g' e =
      ([], ap (λ p. p.0.blocks) (sym e) ∙ sym (append-nil g.blocks), refl, tt)
  load_heights-Loaded (suc count) height cumulative g g' e =
      elim (Result-cases (read_height g.db height)) [
        | inr (x, r) ↦ absurd (
            failed x (ap (λ p. p.1) (sym (load_heights-missing count height cumulative g x r) ∙ e)))
        | inl ((h, block), r) ↦
            let next = add_u128 cumulative block.header.difficulty in
            let (bs, appended, counted, loaded) =
              load_heights-Loaded count (height + 1) next (append_loaded g h block next) g'
                (sym (load_heights-stored count height cumulative g h block r) ∙ e) in
            (
              block ∷ bs,
              appended ∙ append_assoc g.blocks (block ∷ []) bs,
              ap suc counted,
              ((h, r), loaded),
            )
      ]

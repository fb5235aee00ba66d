-- ===== src/Chain/Restore/Sound.antt =====
-- What a restored state is: the account state of a snapshot whose root is in the stored canonical block.
use vision_core.Prelude.{
  ℕ, ◌+◌, ◌%◌, ◌≡◌, ◌≤◌, ◌⊎◌, refl, ◌∙◌, ap, subst, true, ◌&&◌, ◌||◌, some, List, [], ◌∷◌, ◌++◌,
  take, ◌==◌, ok, map_err, bind-ok, then-ok, ensure-ok, map_err-ok, ok-injective, arith,
}
use vision_core.Prelude.Text.{Text, text, text_eq, text_eq_iff}
use vision_core.Prelude.Bytes.{u64_mod}
use vision_core.Types.{Block}
use vision_core.External.{External}
use vision_core.StateRoot.{compute_state_root, nonzero}
use vision_core.Block.{null_hash}
use vision_core.Store.{Sled}
use vision_core.Store.Decimal.{decimal}
use vision_core.Chain.{ChainState}
use vision_core.Chain.Reorg.{add_u128}
use vision_core.Chain.Restore.{
  Snapshot, heights_up_to, sort_descending, index_blocks, truncated, install, load_map,
  check_stored_root, snapshot_block, checked_snapshot, restore_snapshot_at, restore_latest_snapshot,
}
use vision_core.Chain.Restore.Newest.{
  Below-In, IsNewest, refused-IsNewest, restore_first-newest, In-sort_descending,
  sort_descending-In, sort_descending-IsDescending, heights_up_to-Below,
}

-- The root of a block stands for a state: it is the state's, or it is the null root of a genesis.
abbrev pub RootAgrees : ℕ → Block → Text → Type 0
RootAgrees height block root =
    (block.header.state_root ≡ root) ⊎ ((height ≡ 0) × (block.header.state_root ≡ null_hash))

agrees :
    (height : ℕ) (block : Block) (root : Text)
    → (text_eq block.header.state_root root
        || ((height == 0) && text_eq block.header.state_root null_hash))
      ≡ true
    → RootAgrees height block root
agrees height block root e =
    ground (
      arith,
      text_eq_iff block.header.state_root root,
      text_eq_iff block.header.state_root null_hash,
    )

module _ {Db : Type 0} where
  -- The fields that the rebuilding of the indices leaves as they are.
  abbrev Same : ChainState Db → ChainState Db → Type 0
  Same g g' =
      (g'.balances ≡ g.balances)
      × (g'.nonces ≡ g.nonces)
      × (g'.blocks ≡ g.blocks)
      × (g'.cached_state_root ≡ g.cached_state_root)
      × (g'.db ≡ g.db)

  index_blocks-Same : (cw : ℕ) (g : ChainState Db) (bs : List Block) → Same g (index_blocks cw g bs)
  unfolding index_blocks
  index_blocks-Same cw g [] = (refl, refl, refl, refl, refl)
  index_blocks-Same cw g (b ∷ bs) = index_blocks-Same (add_u128 cw b.header.difficulty) _ bs

module _ {Db : Type 0} ⦃ext : External⦄ ⦃sled : Sled Db⦄ where
  abbrev pub IsRestored : ChainState Db → ℕ → ChainState Db → Type 0
  IsRestored g height g' =
      (block : Block) × (root : Text) × (snapshot_block g.db height ≡ ok block)
      × (compute_state_root g'.balances g'.nonces ≡ ok root)
      × RootAgrees height block root
      × (g'.cached_state_root ≡ some (height, root))
      × (g'.blocks ≡ take ((height + 1) % u64_mod) g.blocks)
      × (g'.db ≡ g.db)

  checked_snapshot-ok :
      (db : Db) (height : ℕ) (s : Snapshot)
      → checked_snapshot db height ≡ ok s
      → (block : Block) × (snapshot_block db height ≡ ok block)
        × (compute_state_root s.balances s.nonces ≡ ok s.state_root)
        × RootAgrees height block s.state_root
  unfolding checked_snapshot
  checked_snapshot-ok db height s e =
      let (block, found, e1) = bind-ok (snapshot_block db height) _ s e in
      let (balances, eb, e2) =
        bind-ok (load_map ext.deserialize_balances db (text "snap:balances:" ++ decimal height)) _ s
          e1 in
      let (nonces, en, e3) =
        bind-ok (load_map ext.deserialize_nonces db (text "snap:nonces:" ++ decimal height)) _ s
          e2 in
      let (root, er, e4) =
        bind-ok
          (map_err (λ x. text "restored snapshot state is invalid")
            (compute_state_root (nonzero balances) (nonzero nonces)))
          _ s e3 in
      let (stored, e5) = then-ok (check_stored_root db height root) _ s e4 in
      let (agreed, e6) = then-ok _ _ s e5 in
      let whole : ◌≡◌ {A = Snapshot}
          (record { balances = nonzero balances; nonces = nonzero nonces; state_root = root }) s =
        ok-injective e6 in
      let computed = map_err-ok (λ x. text "restored snapshot state is invalid") _ root er in
      subst
        (λ t.
          (b : Block) × (snapshot_block db height ≡ ok b)
          × (compute_state_root t.balances t.nonces ≡ ok t.state_root)
          × RootAgrees height b t.state_root)
        whole (block, found, computed, agrees height block root (ensure-ok _ _ tt agreed))

  install-IsRestored :
      (g : ChainState Db) (height : ℕ) (s : Snapshot)
      → checked_snapshot g.db height ≡ ok s
      → IsRestored g height (install g height s)
  unfolding install
  install-IsRestored g height s e =
      let (block, found, computed, agreed) = checked_snapshot-ok g.db height s e in
      let g' = install g height s in
      let (eb, en, ebs, ec, ed) =
        index_blocks-Same 0 (truncated g height s) (truncated g height s).blocks in
      let root =
        ap (λ b. compute_state_root b g'.nonces) eb
        ∙ ap (compute_state_root s.balances) en
        ∙ computed in
      (block, s.state_root, found, root, agreed, ec, ebs, ed)

  restore_snapshot_at-IsRestored :
      (g g' : ChainState Db) (height : ℕ)
      → restore_snapshot_at g height ≡ ok g'
      → IsRestored g height g'
  unfolding restore_snapshot_at
  restore_snapshot_at-IsRestored g g' height e =
      let (s, checked, installed) = bind-ok (checked_snapshot g.db height) _ g' e in
      subst (IsRestored g height) (ok-injective installed) (install-IsRestored g height s checked)

  pub restore_latest_snapshot-IsNewest :
      (g g' : ChainState Db) (max_height height : ℕ)
      → restore_latest_snapshot g max_height ≡ ok (g', height)
      → (height ≤ max_height)
        × IsRestored g height g'
        × IsNewest g height
            (heights_up_to max_height (sled.scan_prefix g.db (text "meta:snapshot:")))
  unfolding restore_latest_snapshot
  restore_latest_snapshot-IsNewest g g' max_height height e =
      let entries = sled.scan_prefix g.db (text "meta:snapshot:") in
      let hs = heights_up_to max_height entries in
      let (here, restored, refused) =
        restore_first-newest g g' height (sort_descending hs) (sort_descending-IsDescending hs) e in
      (
        Below-In max_height height hs (heights_up_to-Below max_height entries)
            (sort_descending-In height hs here),
        restore_snapshot_at-IsRestored g g' height restored,
        refused-IsNewest g height hs (λ k i above. refused k (In-sort_descending k hs i) above),
      )

-- ===== src/Chain/Snapshot.antt =====
-- chain/snapshots.rs: the snapshots written while the chain grows.
use vision_core.Prelude.{ℕ, ◌%◌, not, ◌||◌, [], ◌∷◌, ◌++◌, ◌==◌, if◌then◌else◌, Result, ok, err}
use vision_core.Prelude.Text.{Text, text}
use vision_core.External.{External}
use vision_core.StateRoot.{compute_state_root}
use vision_core.Store.{Sled, write_each}
use vision_core.Store.Decimal.{decimal}
use vision_core.Chain.{ChainState, tip_hash, current_height}

abbrev pub snapshot_every : ℕ
snapshot_every = 32

module _ {Db : Type 0} ⦃sled : Sled Db⦄ where
  module _ ⦃ext : External⦄ where
    unfoldable pub save_snapshot : ChainState Db → ℕ → Db × Result (Unit {0}) Text
    unfolding write_each
    save_snapshot g height = elim (compute_state_root g.balances g.nonces) [
      | err e ↦ (g.db, err (text "snapshot state root computation failed"))
      | ok state_root ↦ write_each g.db (
          (text "snap:balances:" ++ decimal height, ext.serialize_balances g.balances)
          ∷ (text "snap:nonces:" ++ decimal height, ext.serialize_nonces g.nonces)
          ∷ (text "meta:snapshot:" ++ decimal height, ext.serialize_index height (tip_hash g))
          ∷ (text "meta:snapshot_state_root:" ++ decimal height, ext.serialize_text state_root)
          ∷ [])
    ]

    unfoldable pub maybe_save_snapshot : ChainState Db → Db × Result (Unit {0}) Text
    unfolding save_snapshot
    maybe_save_snapshot g =
        let height = current_height g in
        if (height == 0) || not (height % snapshot_every == 0)
        then (g.db, ok tt)
        else save_snapshot g height

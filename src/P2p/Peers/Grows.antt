-- ===== src/P2p/Peers/Grows.antt =====
-- The generation of a peer never falls: what each shape of a change does to it.
use vision_core.Prelude.{
  ℕ, ◌≡◌, ◌≤◌, refl, ◌∙◌, sym, ap, Option, none, some, ◌==◌, Bool-cases, Option-cases, inl, inr,
  arith,
}
use mathlib.Core.Option
use vision_core.Prelude.Text.{Text, text_eq, text_eq_iff}
use vision_core.Prelude.Map.{get, insert}
use vision_core.Prelude.Map.Laws.{get-insert}
use vision_core.P2p.Peers.{
  Peer, PeerManager, generation_of, peer_generation, update, entry, disconnect_if_generation,
}

-- Every peer is still known, at no lesser generation.
abbrev pub Grows : PeerManager → PeerManager → Type 0
Grows m m' =
    (addr : Text) (g : ℕ)
    → peer_generation m addr ≡ some g
    → (g' : ℕ) × (peer_generation m' addr ≡ some g') × (g ≤ g')

pub Grows-refl : (m : PeerManager) → Grows m m
Grows-refl m addr g e = (g, e, omega arith)

pub Grows-trans : (m n o : PeerManager) → Grows m n → Grows n o → Grows m o
Grows-trans m n o h k addr g e =
    let (g1, e1, le1) = h addr g e in
    let (g2, e2, le2) = k addr g1 e1 in (g2, e2, omega (arith, le1, le2))

pub some-injective : {a b : ℕ} → ◌≡◌ {A = Option ℕ} (some a) (some b) → a ≡ b
some-injective e = cc

pub not_some : (a : ℕ) → ◌≡◌ {A = Option ℕ} none (some a) → ⊥
not_some a e = cc

-- An insertion at a known peer, at no lesser generation.
pub insert-Grows :
    (m : PeerManager) (addr : Text) (p q : Peer)
    → get addr m ≡ some p
    → p.connection_generation ≤ q.connection_generation
    → Grows m (insert addr q m)
insert-Grows m addr p q known le j g e = elim (Bool-cases (text_eq addr j)) [
  | inl same ↦
      let at : get j m ≡ some p = ap (λ x. get x m) (sym ((text_eq_iff addr j).0 same)) ∙ known in
      let old : p.connection_generation ≡ g =
        some-injective (ap (Option.map generation_of) (sym at) ∙ e) in
      (
        q.connection_generation,
        ap (Option.map generation_of) (get-insert addr j q m) ∙ rw same refl,
        omega (arith, le, old),
      )
  | inr other ↦ (g, ap (Option.map generation_of) (get-insert addr j q m) ∙ rw other e, omega arith)
]

-- An insertion at an unknown peer.
pub fresh-Grows :
    (m : PeerManager) (addr : Text) (q : Peer) → get addr m ≡ none → Grows m (insert addr q m)
fresh-Grows m addr q unknown j g e = elim (Bool-cases (text_eq addr j)) [
  | inl same ↦
      let at : get j m ≡ none = ap (λ x. get x m) (sym ((text_eq_iff addr j).0 same)) ∙ unknown in
      absurd (not_some g (ap (Option.map generation_of) (sym at) ∙ e))
  | inr other ↦ (g, ap (Option.map generation_of) (get-insert addr j q m) ∙ rw other e, omega arith)
]

-- A change of a peer that does not lower its generation.
abbrev pub Raises : (Peer → Peer) → Type 0
Raises f = (p : Peer) → p.connection_generation ≤ (f p).connection_generation

pub update-Grows :
    (f : Peer → Peer) (addr : Text) (m : PeerManager) → Raises f → Grows m (update f addr m)
unfolding update
update-Grows f addr m r = elim (Option-cases (get addr m)) [
  | inl e ↦ rw (e, update) (Grows-refl m)
  | inr (p, e) ↦ rw (e, update) (insert-Grows m addr p (f p) e (r p))
]

pub entry-Grows :
    (f : Peer → Peer) (fresh : Peer) (addr : Text) (m : PeerManager)
    → Raises f
    → Grows m (entry f fresh addr m)
unfolding entry
entry-Grows f fresh addr m r = elim (Option-cases (get addr m)) [
  | inl e ↦ rw (e, entry) (fresh-Grows m addr fresh e)
  | inr (p, e) ↦ rw (e, entry) (insert-Grows m addr p (f p) e (r p))
]

pub disconnect-Grows :
    (m : PeerManager) (addr : Text) (generation : ℕ)
    → Grows m (disconnect_if_generation m addr generation).0
unfolding disconnect_if_generation
disconnect-Grows m addr generation = elim (Option-cases (get addr m)) [
  | inl e ↦ rw (e, disconnect_if_generation) (Grows-refl m)
  | inr (p, e) ↦
      rw (e, disconnect_if_generation)
        (elim (Bool-cases (p.connection_generation == generation)) [
          | inl f ↦ rw f (insert-Grows m addr p _ e (omega arith))
          | inr f ↦ rw f (Grows-refl m)
        ])
]

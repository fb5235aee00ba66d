-- ===== src/P2p/Peers/Select/Best.antt =====
-- The peer that is chosen is the best of those that qualify, in whatever order the table is read.
use Prim.Native.Nat.{Ordering, compare}
use Prim.Native.Nat.Ordering.{lt, eq, gt}
use vision_core.Prelude.{
  ℕ, ◌≡◌, refl, ◌∙◌, sym, ap, subst, Bool, true, Option, none, some, List, [], ◌∷◌, keep_if,
  Bool-cases, inl, inr, ◌⊎◌, All, ◌≢◌,
}
use mathlib.Core.Option
use vision_core.Prelude.Text.{Text, cmp}
use vision_core.Prelude.Map.{values}
use vision_core.Prelude.Orders.{IsOrder, IsOrder-number, IsOrder-text, IsOrder-then, at_most_trans}
use vision_core.P2p.Peers.{Peer, PeerManager}
use vision_core.P2p.Peers.Select.{
  greater, max_by, by_height, by_work, is_higher, has_more_work, addr_of, best_sync_target,
  best_work_sync_target,
}

by_height-IsOrder : IsOrder by_height
unfolding by_height
by_height-IsOrder =
    IsOrder-then (λ (a b : Peer). compare a.height b.height) (λ (a b : Peer). cmp b.addr a.addr)
      (IsOrder-number (λ (p : Peer). p.height)) (IsOrder-text (λ (p : Peer). p.addr))

by_work-IsOrder : IsOrder by_work
unfolding by_work
by_work-IsOrder =
    IsOrder-then (λ (a b : Peer). compare a.cumulative_work b.cumulative_work) by_height
      (IsOrder-number (λ (p : Peer). p.cumulative_work)) by_height-IsOrder

-- Every entry that a filter keeps passes it.
keep_if-All : (p : Peer → Bool) (ps : List Peer) → All (λ x. p x ≡ true) (keep_if p ps)
keep_if-All p [] = tt
keep_if-All p (x ∷ ps) = elim (Bool-cases (p x)) [
  | inl e ↦ rw e (e, keep_if-All p ps)
  | inr e ↦ rw e (keep_if-All p ps)
]

greater-cases :
    (o : Ordering) (b p : Peer)
    → ((o ≡ gt) × (greater o b p ≡ b)) ⊎ ((o ≢ gt) × (greater o b p ≡ p))
greater-cases gt b p = inl (refl, refl)
greater-cases lt b p = inr ((λ e. cc), refl)
greater-cases eq b p = inr ((λ e. cc), refl)

module _ (c : Peer → Peer → Ordering) (o : IsOrder c) (P : Peer → Type 0) where
  self_at_most : (p : Peer) → c p p ≢ gt
  self_at_most p e = cc (o.flip_gt p p e, e)

  max_by-best :
      (ps : List Peer) (b m : Peer)
      → P b
      → All P ps
      → max_by c (some b) ps ≡ some m
      → P m × (c b m ≢ gt) × All (λ p. c p m ≢ gt) ps
  unfolding max_by
  max_by-best [] b m pb a e =
      let same : b ≡ m = cc in (subst P same pb, subst (λ x. c b x ≢ gt) same (self_at_most b), tt)
  max_by-best (p ∷ ps) b m pb a e = elim (greater-cases (c b p) b p) [
    | inl (g, same) ↦
        let (pm, bm, rest) =
          max_by-best ps b m pb a.1 (ap (λ x. max_by c (some x) ps) (sym same) ∙ e) in
        let pb' : c p b ≢ gt = λ h. cc (o.flip_gt b p g, h) in
        (pm, bm, (at_most_trans c o p b m pb' bm, rest))
    | inr (g, same) ↦
        let (pm, xm, rest) =
          max_by-best ps p m a.0 a.1 (ap (λ x. max_by c (some x) ps) (sym same) ∙ e) in
        (pm, at_most_trans c o b p m g xm, (xm, rest))
  ]

  max_by-start :
      (ps : List Peer) (m : Peer)
      → All P ps
      → max_by c none ps ≡ some m
      → P m × All (λ p. c p m ≢ gt) ps
  unfolding max_by
  max_by-start [] m a e = cc
  max_by-start (p ∷ ps) m a e =
      let (pm, xm, rest) = max_by-best ps p m a.0 a.1 e in (pm, (xm, rest))

  -- A choice is made where there is an entry.
  max_by-total : (ps : List Peer) (b : Peer) → (m : Peer) × (max_by c (some b) ps ≡ some m)
  unfolding max_by
  max_by-total [] b = (b, refl)
  max_by-total (p ∷ ps) b = max_by-total ps (greater (c b p) b p)

  max_by-none : (ps : List Peer) → max_by c none ps ≡ none → ps ≡ []
  unfolding max_by
  max_by-none [] e = refl
  max_by-none (p ∷ ps) e = let (m, f) = max_by-total ps p in absurd (cc (e, f))

-- No peer in the list comes after `m` in the order.
abbrev pub IsBest : (Peer → Peer → Ordering) → Peer → List Peer → Type 0
IsBest c m ps = All (λ p. c p m ≢ gt) ps

Option-map-some :
    (o : Option Peer) (a : Text)
    → Option.map addr_of o ≡ some a
    → (m : Peer) × (o ≡ some m) × (m.addr ≡ a)
Option-map-some none a e = cc
Option-map-some (some m) a e = (m, refl, cc)

Option-map-none : (o : Option Peer) → Option.map addr_of o ≡ none → o ≡ none
Option-map-none none e = refl
Option-map-none (some m) e = cc

module _ (now : ℕ) (peers : PeerManager) where
  pub best_work_sync_target-IsBest :
      (tip : Text) (work : ℕ) (addr : Text)
      → best_work_sync_target now peers tip work ≡ some addr
      → (m : Peer) × (m.addr ≡ addr)
        × (has_more_work now tip work m ≡ true)
        × IsBest by_work m (keep_if (has_more_work now tip work) (values peers))
  unfolding best_work_sync_target
  best_work_sync_target-IsBest tip work addr e =
      let ps = keep_if (has_more_work now tip work) (values peers) in
      let (m, chosen, same) = Option-map-some (max_by by_work none ps) addr e in
      let (more, best) =
        max_by-start by_work by_work-IsOrder (λ p. has_more_work now tip work p ≡ true) ps m
          (keep_if-All (has_more_work now tip work) (values peers)) chosen in
      (m, same, more, best)

  -- No peer is chosen for its work only where none qualifies.
  pub best_work_sync_target-none :
      (tip : Text) (work : ℕ)
      → best_work_sync_target now peers tip work ≡ none
      → keep_if (has_more_work now tip work) (values peers) ≡ []
  unfolding best_work_sync_target
  best_work_sync_target-none tip work e =
      max_by-none by_work by_work-IsOrder (λ p. Unit) _ (Option-map-none _ e)

  -- The peer chosen for its height is live and higher than we are, and no peer that qualifies is
  -- higher, or as high with a lesser address.
  pub best_sync_target-IsBest :
      (local_height : ℕ) (addr : Text)
      → best_sync_target now peers local_height ≡ some addr
      → (m : Peer) × (m.addr ≡ addr)
        × (is_higher now local_height m ≡ true)
        × IsBest by_height m (keep_if (is_higher now local_height) (values peers))
  unfolding best_sync_target
  best_sync_target-IsBest local_height addr e =
      let ps = keep_if (is_higher now local_height) (values peers) in
      let (m, chosen, same) = Option-map-some (max_by by_height none ps) addr e in
      let (more, best) =
        max_by-start by_height by_height-IsOrder (λ p. is_higher now local_height p ≡ true) ps m
          (keep_if-All (is_higher now local_height) (values peers)) chosen in
      (m, same, more, best)

-- ===== src/P2p/Peers/Select.antt =====
-- p2p/peer_manager.rs: the choice of a peer to synchronise with, and the counts and addresses shown.
pub mod Best
use Prim.Native.Nat.{Ordering, compare}
use Prim.Native.Nat.Ordering.{lt, eq, gt}
use vision_core.Prelude.{
  ℕ, ◌≡◌, refl, ◌∙◌, sym, ap, subst, max, Bool, true, false, not, ◌&&◌, ◌||◌, Option, none, some,
  List, [], ◌∷◌, ◌++◌, map, keep_if, length, take, ltb, leb, ◌==◌, if◌then◌else◌, is_some,
  unwrap_or, foldl, ◌⊎◌, inl, inr, Bool-cases, Option-cases, arith, All, ◌≢◌,
}
use mathlib.Core.Option
use vision_core.Prelude.Text.{Text, text_eq, cmp, then as then_with}
use vision_core.Prelude.Map.{Map, get, values}
use vision_core.P2p.Peers.{
  Peer, PeerState, PeerManager, is_connected, is_height_fresh, is_height_poll_stalled,
}

abbrev pub greater : Ordering → Peer → Peer → Peer
greater gt b p = b
greater _ b p = p

-- `max_by` of an iterator: the last of the greatest elements.
unfoldable pub max_by : (Peer → Peer → Ordering) → Option Peer → List Peer → Option Peer
max_by c best [] = best
max_by c none (p ∷ ps) = max_by c (some p) ps
max_by c (some b) (p ∷ ps) = max_by c (some (greater (c b p) b p)) ps

-- Connected, with a fresh height, and no height poll unanswered.
abbrev pub is_live : ℕ → Peer → Bool
is_live now p = is_connected p.state && is_height_fresh now p && not (is_height_poll_stalled now p)

unfoldable pub max_height : List Peer → ℕ
max_height [] = 0
max_height (p ∷ ps) = max p.height (max_height ps)

unfoldable pub best_remote_height : ℕ → PeerManager → ℕ
unfolding max_height is_height_fresh is_height_poll_stalled
best_remote_height now peers = max_height (keep_if (is_live now) (values peers))

-- By height, and from the greatest address to the least.
unfoldable pub by_height : Peer → Peer → Ordering
unfolding cmp
by_height a b = then_with (compare a.height b.height) (cmp b.addr a.addr)

unfoldable pub by_work : Peer → Peer → Ordering
unfolding by_height
by_work a b = then_with (compare a.cumulative_work b.cumulative_work) (by_height a b)

abbrev pub is_higher : ℕ → ℕ → Peer → Bool
is_higher now local_height p = is_live now p && ltb local_height p.height

abbrev pub addr_of : Peer → Text
addr_of p = p.addr

unfoldable pub best_sync_target : ℕ → PeerManager → ℕ → Option Text
unfolding max_by by_height is_height_fresh is_height_poll_stalled
best_sync_target now peers local_height =
    Option.map addr_of (max_by by_height none (keep_if (is_higher now local_height) (values peers)))

abbrev pub has_other_tip : Text → Option Text → Bool
has_other_tip tip none = false
has_other_tip tip (some h) = not (text_eq h tip)

abbrev pub has_more_work : ℕ → Text → ℕ → Peer → Bool
has_more_work now local_tip_hash local_work p =
    is_live now p && ltb local_work p.cumulative_work && has_other_tip local_tip_hash p.tip_hash

unfoldable pub best_work_sync_target : ℕ → PeerManager → Text → ℕ → Option Text
unfolding max_by by_work is_height_fresh is_height_poll_stalled
best_work_sync_target now peers local_tip_hash local_work =
    Option.map addr_of
      (max_by by_work none (keep_if (has_more_work now local_tip_hash local_work) (values peers)))

unfoldable pub connected_count : PeerManager → ℕ
connected_count peers = length (keep_if (λ p. is_connected p.state) (values peers))

unfoldable pub outbound_count : PeerManager → ℕ
outbound_count peers = length (keep_if (λ p. is_connected p.state && p.is_outbound) (values peers))

abbrev snapshot : PeerManager → List Peer
snapshot peers = values peers

abbrev pub is_dialable : Peer → Bool
is_dialable p = p.is_outbound || is_some p.advertised_addr

pub record PeerCounts : Type 0 where
  pub durable_peers : ℕ
  pub active_inbound_sessions : ℕ
  pub active_outbound_sessions : ℕ
  pub transient_connections : ℕ
  pub dialable_peers : ℕ

unfoldable pub peer_counts : PeerManager → PeerCounts
peer_counts peers =
    let count = λ (p : Peer → Bool). length (keep_if p (values peers)) in
    record {
      durable_peers = length (values peers);
      active_inbound_sessions = count (λ p. is_connected p.state && not p.is_outbound);
      active_outbound_sessions = count (λ p. is_connected p.state && p.is_outbound);
      transient_connections =
          count (λ p. is_connected p.state && not (is_some p.advertised_addr) && not p.is_outbound);
      dialable_peers = count is_dialable;
    }

-- `addresses.sort()`
unfoldable pub place_addr : Text → List Text → List Text
unfolding cmp
place_addr a [] = a ∷ []
place_addr a (b ∷ bs) =
    let rest = place_addr a bs in elim (cmp a b) [ gt ↦ b ∷ rest | _ ↦ a ∷ b ∷ bs ]

unfoldable pub sort_addrs : List Text → List Text
unfolding place_addr
sort_addrs [] = []
sort_addrs (a ∷ as') = place_addr a (sort_addrs as')

-- `dedup`, of neighbours
unfoldable pub dedup : List Text → List Text
unfolding text_eq
dedup [] = []
dedup (a ∷ []) = a ∷ []
dedup (a ∷ b ∷ bs) = let rest = dedup (b ∷ bs) in if text_eq a b then rest else a ∷ rest

unfoldable pub dialable_addresses : PeerManager → ℕ → List Text
unfolding sort_addrs dedup
dialable_addresses peers limit =
    take limit (dedup (sort_addrs (map addr_of (keep_if is_dialable (values peers)))))

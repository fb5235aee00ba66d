-- ===== src/P2p/Sessions/Lifecycle.antt =====
-- The sessions of p2p/connection.rs with the table of p2p/peer_manager.rs: a session that opens is
-- registered and connects its peer, and the last one that closes disconnects it.
pub mod Opens
pub mod Closing
pub mod Ends
use vision_core.Prelude.{
  ℕ, ◌+◌, ◌%◌, ◌≡◌, ◌⊎◌, ◌≤◌, ◌<◌, refl, ◌∙◌, sym, ap, subst, max, Bool, true, false, not, ◌&&◌,
  ◌||◌, Option, none, some, List, [], ◌∷◌, ◌++◌, keep_if, length, ◌==◌, if◌then◌else◌, is_some,
  Bool-cases, Option-cases, inl, inr, arith,
}
use mathlib.Core.Option
use vision_core.Prelude.Text.{Text, text_eq, text_eq_iff, text_eq_refl}
use vision_core.Prelude.Bytes.{u64_mod}
use vision_core.Prelude.Map.{Map, get, insert, remove}
use vision_core.Prelude.Map.Laws.{get-insert, get-remove}
use vision_core.P2p.Peers.{
  Peer, PeerManager, PeerState, connected, disconnected, update, connect_session,
  disconnect_if_generation, upsert, entry, new, clear_peer_summary,
}
use vision_core.P2p.Sessions.{
  PeerSessionRegistry, PeerSessions, SessionSender, register, take_generation, add_session,
  unregister, sessions_at, open_session,
}

pub record Net : Type 0 where
  pub registry : PeerSessionRegistry
  pub peers : PeerManager

-- `register`, and `connect_session` with its generation.
unfoldable pub open_on : Net → Text → Net
unfolding register connect_session
open_on net addr =
    let (registry, generation) = register net.registry addr in
    record { registry = registry; peers = connect_session net.peers addr generation }

abbrev pub end_peer : PeerManager → Text → Option ℕ → PeerManager
end_peer peers addr none = peers
end_peer peers addr (some latest_generation) =
    (disconnect_if_generation peers addr latest_generation).0

-- The end of a transport: `unregister`, and the disconnection for the last one.
unfoldable pub close_on : Net → Text → ℕ → Net
unfolding unregister disconnect_if_generation
close_on net addr generation =
    let (registry, latest) = unregister net.registry addr generation in
    record { registry = registry; peers = end_peer net.peers addr latest }

-- The calls on a registry and a table, one after another. A session opens for a known peer, while
-- generations last; the other calls leave the generation of a peer as it is.
pub data Step (net : Net) : Net → Type 0 where
  opens :
      (addr : Text)
      → is_some (get addr net.peers) ≡ true
      → net.registry.next_generation + 1 < u64_mod
      → Step net (open_on net addr)
  closes : (addr : Text) (generation : ℕ) → Step net (close_on net addr generation)
  learns :
      (addr : Text) (is_outbound : Bool)
      → Step net (record net { peers = upsert net.peers addr is_outbound })
  touches :
      (f : Peer → Peer) (addr : Text)
      → ((p : Peer) → (f p).connection_generation ≡ p.connection_generation)
      → Step net (record net { peers = update f addr net.peers })

-- The generation of a peer is that of its newest session, and below the next one.
abbrev pub Agree : ℕ → Option PeerSessions → Option Peer → Type 0
Agree next none none = Unit
Agree next none (some p) = p.connection_generation < next
Agree next (some s) none = ⊥
Agree next (some s) (some p) =
    (p.connection_generation ≡ s.latest_generation) × (s.latest_generation < next)

abbrev pub IsInStep : Net → Type 0
IsInStep net =
    (0 < net.registry.next_generation)
    × ((addr : Text)
        → Agree net.registry.next_generation (get addr net.registry.sessions) (get addr net.peers))

-- A later counter.
pub Agree-later :
    (n n' : ℕ) (s : Option PeerSessions) (p : Option Peer) → n ≤ n' → Agree n s p → Agree n' s p
Agree-later n n' none none le a = tt
Agree-later n n' none (some p) le a = omega (arith, le, a)
Agree-later n n' (some s) none le a = a
Agree-later n n' (some s) (some p) le a = (a.0, omega (arith, le, a.1))

-- A change of the peer, or a fresh one.
pub Agree-touch :
    (n : ℕ) (s : Option PeerSessions) (p q : Peer)
    → q.connection_generation ≡ p.connection_generation
    → Agree n s (some p)
    → Agree n s (some q)
Agree-touch n none p q e a = omega (arith, e, a)
Agree-touch n (some s) p q e a = (e ∙ a.0, a.1)

pub Agree-fresh :
    (n : ℕ) (s : Option PeerSessions) (q : Peer)
    → q.connection_generation ≡ 0
    → 0 < n
    → Agree n s none
    → Agree n s (some q)
Agree-fresh n none q e pos a = omega (arith, e, pos)
Agree-fresh n (some s) q e pos a = absurd a

pub get-update :
    (f : Peer → Peer) (addr j : Text) (p : Peer) (m : PeerManager)
    → get addr m ≡ some p
    → get j (update f addr m) ≡ (if text_eq addr j then some (f p) else get j m)
unfolding update
get-update f addr j p m known = rw (known, update) (get-insert addr j (f p) m)

pub update-absent :
    (f : Peer → Peer) (addr : Text) (m : PeerManager) → get addr m ≡ none → update f addr m ≡ m
unfolding update
update-absent f addr m unknown = rw (unknown, update) refl

-- A change of one peer that keeps its agreement with the sessions.
pub touch-IsInStep :
    (net : Net) (f : Peer → Peer) (addr : Text)
    → ((p : Peer) → (f p).connection_generation ≡ p.connection_generation)
    → IsInStep net
    → IsInStep (record net { peers = update f addr net.peers })
touch-IsInStep net f addr keeps (pos, h) = (
  pos,
  λ j. elim (Option-cases (get addr net.peers)) [
    | inl e ↦
        subst (λ m. Agree net.registry.next_generation (get j net.registry.sessions) (get j m))
          (sym (update-absent f addr net.peers e)) (h j)
    | inr (p, e) ↦
        subst (Agree net.registry.next_generation (get j net.registry.sessions))
          (sym (get-update f addr j p net.peers e)) (touched j p e)
  ],
)
  where
    touched :
        (j : Text) (p : Peer)
        → get addr net.peers ≡ some p
        → Agree net.registry.next_generation
            (get j net.registry.sessions)
            (if text_eq addr j then some (f p) else get j net.peers)
    touched j p e = elim (Bool-cases (text_eq addr j)) [
      | inr other ↦ rw other (h j)
      | inl same ↦
          let here = ap (λ x. get x net.peers) (sym ((text_eq_iff addr j).0 same)) ∙ e in
          rw same (
            Agree-touch net.registry.next_generation (get j net.registry.sessions) p (f p) (keeps p)
              (subst (Agree net.registry.next_generation (get j net.registry.sessions)) here (h j)))
    ]

get-entry_known :
    (f : Peer → Peer) (fresh p : Peer) (addr : Text) (m : PeerManager)
    → get addr m ≡ some p
    → entry f fresh addr m ≡ update f addr m
unfolding entry update
get-entry_known f fresh p addr m known = rw (known, entry, update) refl

get-entry_fresh :
    (f : Peer → Peer) (fresh : Peer) (addr j : Text) (m : PeerManager)
    → get addr m ≡ none
    → get j (entry f fresh addr m) ≡ (if text_eq addr j then some fresh else get j m)
unfolding entry
get-entry_fresh f fresh addr j m unknown = rw (unknown, entry) (get-insert addr j fresh m)

pub learn-IsInStep :
    (net : Net) (addr : Text) (is_outbound : Bool)
    → IsInStep net
    → IsInStep (record net { peers = upsert net.peers addr is_outbound })
unfolding upsert new
learn-IsInStep net addr is_outbound (pos, h) = elim (Option-cases (get addr net.peers)) [
  | inr (p, e) ↦
      rw
        (get-entry_known (λ q. record q { is_outbound = q.is_outbound || is_outbound })
          (new addr is_outbound) p addr net.peers e)
        (touch-IsInStep net _ addr (λ q. refl) (pos, h))
  | inl e ↦ (
    pos,
    λ j.
        subst (Agree net.registry.next_generation (get j net.registry.sessions))
          (sym (get-entry_fresh _ (new addr is_outbound) addr j net.peers e)) (fresh j e),
  )
]
  where
    fresh :
        (j : Text)
        → get addr net.peers ≡ none
        → Agree net.registry.next_generation
            (get j net.registry.sessions)
            (if text_eq addr j then some (new addr is_outbound) else get j net.peers)
    fresh j e = elim (Bool-cases (text_eq addr j)) [
      | inr other ↦ rw other (h j)
      | inl same ↦
          let here = ap (λ x. get x net.peers) (sym ((text_eq_iff addr j).0 same)) ∙ e in
          rw same (
            Agree-fresh net.registry.next_generation (get j net.registry.sessions)
              (new addr is_outbound) refl pos
              (subst (Agree net.registry.next_generation (get j net.registry.sessions)) here (h j)))
    ]

-- What agrees, read at an equal counter, sessions and peer.
pub Agree-read :
    (n n' : ℕ) (s s' : Option PeerSessions) (p p' : Option Peer)
    → n' ≡ n
    → s' ≡ s
    → p' ≡ p
    → Agree n s p
    → Agree n' s' p'
Agree-read n n' s s' p p' en es ep a =
    subst (λ x. Agree x s' p') (sym en)
      (subst (λ x. Agree n x p') (sym es) (subst (Agree n s) (sym ep) a))

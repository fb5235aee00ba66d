-- ===== src/P2p/Sessions/Lifecycle/Opens.antt =====
-- A session that opens keeps the registry and the table in step.
use vision_core.Prelude.{
  ℕ, ◌+◌, ◌%◌, ◌≡◌, ◌<◌, subst, max, Option, none, some, List, [], ◌∷◌, ◌++◌, if◌then◌else◌,
  Bool-cases, inl, inr, arith,
}
use vision_core.Prelude.Text.{Text, text_eq}
use vision_core.Prelude.Bytes.{u64_mod}
use vision_core.Prelude.Map.{get}
use vision_core.Prelude.Map.Laws.{get-insert}
use vision_core.P2p.Peers.{Peer, connected, connect_session}
use vision_core.P2p.Sessions.{
  PeerSessions, SessionSender, take_generation, add_session, sessions_at, open_session,
}
use vision_core.P2p.Sessions.Lifecycle.{
  Net, open_on, Agree, IsInStep, Agree-later, Agree-read, get-update,
}

-- The generation of a peer that agrees is below the next one.
Agree-below :
    (n : ℕ) (s : Option PeerSessions) (p : Peer) → Agree n s (some p) → p.connection_generation < n
Agree-below n none p a = a
Agree-below n (some s) p a = omega (arith, a.0, a.1)

-- The peer of a session that opens.
abbrev pub joined : ℕ → Peer → Peer
joined generation p = record p {
  connection_generation = max p.connection_generation generation;
  state = connected;
}

Agree-joined :
    (n : ℕ) (s : Option PeerSessions) (active : List SessionSender) (p : Peer)
    → Agree n s (some p)
    → Agree (n + 1) (some (record { latest_generation = n; active = active })) (some (joined n p))
Agree-joined n s active p a = let below = Agree-below n s p a in (omega (arith, below), omega arith)

pub open-IsInStep :
    (net : Net) (addr : Text) (p : Peer)
    → get addr net.peers ≡ some p
    → net.registry.next_generation + 1 < u64_mod
    → IsInStep net
    → IsInStep (open_on net addr)
unfolding open_on take_generation add_session connect_session
open-IsInStep net addr p known room (pos, h) = (
  omega (arith, room),
  λ j.
      Agree-read (n + 1) _ _ _ _ _ (omega (arith, room))
        (get-insert addr j opened net.registry.sessions)
        (get-update (joined n) addr j p net.peers known) (opened_at j),
)
  where
    n : ℕ
    n = net.registry.next_generation

    opened : PeerSessions
    opened = record {
      latest_generation = n;
      active =
          sessions_at (record net.registry { next_generation = (n + 1) % u64_mod }) addr
          ++ open_session n ∷ [];
    }

    opened_at :
        (j : Text)
        → Agree
            (n + 1)
            (if text_eq addr j then some opened else get j net.registry.sessions)
            (if text_eq addr j then some (joined n p) else get j net.peers)
    opened_at j = elim (Bool-cases (text_eq addr j)) [
      | inr other ↦ rw other (
          Agree-later n (n + 1) (get j net.registry.sessions) (get j net.peers) (omega arith) (h j))
      | inl same ↦ rw same (
          Agree-joined n (get addr net.registry.sessions) opened.active p
            (subst (Agree n (get addr net.registry.sessions)) known (h addr)))
    ]

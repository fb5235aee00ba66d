-- ===== src/P2p/Sessions/Lifecycle/Closing.antt =====
-- A session that ends, for the registry alone and where others stay.
use vision_core.Prelude.{
  ℕ, ◌≡◌, ◌<◌, refl, ◌∙◌, sym, ap, subst, Bool, true, false, not, ◌||◌, Option, none, some, List,
  keep_if, length, ◌==◌, if◌then◌else◌, Bool-cases, inl, inr, arith,
}
use vision_core.Prelude.Text.{Text, text_eq, text_eq_iff}
use vision_core.Prelude.Map.{get, insert, remove}
use vision_core.Prelude.Map.Laws.{get-insert, get-remove}
use vision_core.P2p.Peers.{
  Peer, PeerManager, disconnected, disconnect_if_generation, clear_peer_summary,
}
use vision_core.P2p.Sessions.{PeerSessionRegistry, PeerSessions, SessionSender, unregister}
use vision_core.P2p.Sessions.Lifecycle.{Net, Agree, IsInStep, Agree-read}

-- The sessions that are left when one ends.
abbrev pub kept : PeerSessions → ℕ → List SessionSender
kept s generation = keep_if (λ x. not (x.generation == generation)) s.active

-- Whether a session that ends leaves the entry of its peer.
abbrev pub stays : PeerSessions → ℕ → Bool
stays s generation =
    length (kept s generation) == length s.active || not (length (kept s generation) == 0)

pub unregister-stays :
    (r : PeerSessionRegistry) (addr : Text) (generation : ℕ) (s : PeerSessions)
    → get addr r.sessions ≡ some s
    → stays s generation ≡ true
    → unregister r addr generation ≡ (
      record r { sessions = insert addr (record s { active = kept s generation }) r.sessions },
      none,
    )
unfolding unregister
unregister-stays r addr generation s e f = rw (e, unregister) (rw f refl)

pub unregister-ends :
    (r : PeerSessionRegistry) (addr : Text) (generation : ℕ) (s : PeerSessions)
    → get addr r.sessions ≡ some s
    → stays s generation ≡ false
    → unregister r addr generation
      ≡ (record r { sessions = remove addr r.sessions }, some s.latest_generation)
unfolding unregister
unregister-ends r addr generation s e f = rw (e, unregister) (rw f refl)

pub unregister-unknown :
    (r : PeerSessionRegistry) (addr : Text) (generation : ℕ)
    → get addr r.sessions ≡ none
    → unregister r addr generation ≡ (r, none)
unfolding unregister
unregister-unknown r addr generation e = rw (e, unregister) refl

-- A peer whose last session has ended.
abbrev pub parted : Peer → Peer
parted p = clear_peer_summary (record p { state = disconnected })

pub disconnect-current :
    (m : PeerManager) (addr : Text) (p : Peer) (latest : ℕ)
    → get addr m ≡ some p
    → p.connection_generation ≡ latest
    → disconnect_if_generation m addr latest ≡ (insert addr (parted p) m, true)
unfolding disconnect_if_generation
disconnect-current m addr p latest known e =
    let same : (p.connection_generation == latest) ≡ true = ground (arith, e) in
    rw (known, disconnect_if_generation) (rw same refl)

-- The peer of a session that is registered is known, at the session's generation.
pub Agree-peer :
    (n : ℕ) (s : PeerSessions) (p : Option Peer)
    → Agree n (some s) p
    → (q : Peer) × (p ≡ some q)
      × (q.connection_generation ≡ s.latest_generation)
      × (s.latest_generation < n)
Agree-peer n s none a = absurd a
Agree-peer n s (some q) a = (q, refl, a.0, a.1)

-- Only the newest generation counts.
pub Agree-active :
    (n : ℕ) (s : PeerSessions) (active : List SessionSender) (p : Option Peer)
    → Agree n (some s) p
    → Agree n (some (record s { active = active })) p
Agree-active n s active none a = a
Agree-active n s active (some q) a = a

pub end-IsInStep :
    (net : Net) (addr : Text) (generation : ℕ) (s : PeerSessions) (p : Peer)
    → get addr net.registry.sessions ≡ some s
    → get addr net.peers ≡ some p
    → p.connection_generation ≡ s.latest_generation
    → s.latest_generation < net.registry.next_generation
    → IsInStep net
    → IsInStep (record {
      registry = record net.registry { sessions = remove addr net.registry.sessions };
      peers = insert addr (parted p) net.peers;
    })
unfolding clear_peer_summary
end-IsInStep net addr generation s p known here e below (pos, h) = (
  pos,
  λ j.
      Agree-read n n _ _ _ _ refl (get-remove addr j net.registry.sessions)
        (get-insert addr j (parted p) net.peers) (ended_at j),
)
  where
    n : ℕ
    n = net.registry.next_generation

    ended_at :
        (j : Text)
        → Agree n
            (if text_eq addr j then none else get j net.registry.sessions)
            (if text_eq addr j then some (parted p) else get j net.peers)
    ended_at j = elim (Bool-cases (text_eq addr j)) [
      | inr other ↦ rw other (h j)
      | inl same ↦ rw same (omega (arith, e, below))
    ]

pub stay-IsInStep :
    (net : Net) (addr : Text) (s : PeerSessions) (active : List SessionSender)
    → get addr net.registry.sessions ≡ some s
    → IsInStep net
    → IsInStep (record net {
      registry = record net.registry {
        sessions = insert addr (record s { active = active }) net.registry.sessions;
      };
    })
stay-IsInStep net addr s active known (pos, h) = (
  pos,
  λ j.
      Agree-read n n _ _ _ _ refl
        (get-insert addr j (record s { active = active }) net.registry.sessions) refl (stayed_at j),
)
  where
    n : ℕ
    n = net.registry.next_generation

    stayed_at :
        (j : Text)
        → Agree n
            (if text_eq addr j
              then some (record s { active = active })
              else get j net.registry.sessions)
            (get j net.peers)
    stayed_at j = elim (Bool-cases (text_eq addr j)) [
      | inr other ↦ rw other (h j)
      | inl same ↦ rw same (
          Agree-active n s active (get j net.peers) (
            subst (λ x. Agree n x (get j net.peers))
              (ap (λ x. get x net.registry.sessions) (sym ((text_eq_iff addr j).0 same)) ∙ known)
              (h j)))
    ]

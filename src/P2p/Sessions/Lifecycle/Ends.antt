-- ===== src/P2p/Sessions/Lifecycle/Ends.antt =====
-- A session that ends: the registry and the table stay in step, and the last one disconnects its peer.
use vision_core.Prelude.{
  ℕ, ◌≡◌, refl, ◌∙◌, sym, ap, subst, Bool, false, Option, none, some, [], is_some, Bool-cases,
  Option-cases, inl, inr, arith,
}
use vision_core.Prelude.Text.{Text, text_eq_refl}
use vision_core.Prelude.Map.{get, insert, remove}
use vision_core.Prelude.Map.Laws.{get-insert, get-remove}
use vision_core.P2p.Peers.{Peer, PeerManager, disconnected, clear_peer_summary}
use vision_core.P2p.Sessions.{
  PeerSessionRegistry, PeerSessions, SessionSender, register, take_generation, add_session,
  unregister, sessions_at, open_session,
}
use vision_core.P2p.Sessions.Lifecycle.{
  Net, close_on, Step, opens, closes, learns, touches, Agree, IsInStep, touch-IsInStep,
  learn-IsInStep,
}
use vision_core.P2p.Sessions
use vision_core.P2p.Sessions.Lifecycle.Opens.{open-IsInStep}
use vision_core.P2p.Sessions.Lifecycle.Closing.{
  kept, stays, unregister-stays, unregister-ends, unregister-unknown, parted, disconnect-current,
  Agree-peer, end-IsInStep, stay-IsInStep,
}

-- The net after the last session of a peer.
close_on-ends :
    (net : Net) (addr : Text) (generation : ℕ) (s : PeerSessions) (p : Peer)
    → get addr net.registry.sessions ≡ some s
    → stays s generation ≡ false
    → get addr net.peers ≡ some p
    → p.connection_generation ≡ s.latest_generation
    → close_on net addr generation ≡ record {
      registry = record net.registry { sessions = remove addr net.registry.sessions };
      peers = insert addr (parted p) net.peers;
    }
unfolding close_on
close_on-ends net addr generation s p e f here same =
    rw (unregister-ends net.registry addr generation s e f) (
      ap (λ (d : PeerManager × Bool). left_with d.0)
        (disconnect-current net.peers addr p s.latest_generation here same))
  where
    left_with : PeerManager → Net
    left_with m = record {
      registry = record net.registry { sessions = remove addr net.registry.sessions };
      peers = m;
    }

close-IsInStep :
    (net : Net) (addr : Text) (generation : ℕ)
    → IsInStep net
    → IsInStep (close_on net addr generation)
unfolding close_on
close-IsInStep net addr generation (pos, h) = elim (Option-cases (get addr net.registry.sessions)) [
  | inl e ↦ rw (unregister-unknown net.registry addr generation e) (pos, h)
  | inr (s, e) ↦ elim (Bool-cases (stays s generation)) [
    | inl f ↦
        rw (unregister-stays net.registry addr generation s e f)
          (stay-IsInStep net addr s (kept s generation) e (pos, h))
    | inr f ↦
        let (p, here, same, below) =
          Agree-peer net.registry.next_generation s (get addr net.peers)
            (subst (λ x. Agree net.registry.next_generation x (get addr net.peers)) e (h addr)) in
        subst IsInStep (sym (close_on-ends net addr generation s p e f here same))
          (end-IsInStep net addr generation s p e here same below (pos, h))
  ]
]

Step-IsInStep : {net next : Net} → Step net next → IsInStep net → IsInStep next
Step-IsInStep {net} (opens addr known room) h = elim (Option-cases (get addr net.peers)) [
  | inl e ↦ absurd (cc (ap is_some e, known))
  | inr (p, e) ↦ open-IsInStep net addr p e room h
]
Step-IsInStep {net} (closes addr generation) h = close-IsInStep net addr generation h
Step-IsInStep {net} (learns addr is_outbound) h = learn-IsInStep net addr is_outbound h
Step-IsInStep {net} (touches f addr keeps) h = touch-IsInStep net f addr keeps h

not_latest : (latest : ℕ) → ◌≡◌ {A = Option ℕ} none (some latest) → ⊥
not_latest latest e = cc

pub data Reach : Net → Type 0 where
  started : Reach (record { registry = Sessions.new; peers = [] })
  later : {net next : Net} → Reach net → Step net next → Reach next

Reach-IsInStep : {net : Net} → Reach net → IsInStep net
unfolding get
Reach-IsInStep started = (omega arith, λ addr. tt)
Reach-IsInStep (later r s) = Step-IsInStep s (Reach-IsInStep r)

pub last_close_disconnects :
    (net : Net) (addr : Text) (generation latest : ℕ)
    → Reach net
    → (unregister net.registry addr generation).1 ≡ some latest
    → (p : Peer) × (get addr (close_on net addr generation).peers ≡ some p)
      × (p.state ≡ disconnected)
      × (p.tip_hash ≡ none)
      × (get addr (close_on net addr generation).registry.sessions ≡ none)
unfolding close_on clear_peer_summary
last_close_disconnects net addr generation latest r last =
    let (pos, h) = Reach-IsInStep r in
    elim (Option-cases (get addr net.registry.sessions)) [
      | inl e ↦ absurd (
          not_latest latest
            (ap (λ x. x.1) (sym (unregister-unknown net.registry addr generation e)) ∙ last))
      | inr (s, e) ↦ elim (Bool-cases (stays s generation)) [
        | inl f ↦ absurd (
            not_latest latest
              (ap (λ x. x.1) (sym (unregister-stays net.registry addr generation s e f)) ∙ last))
        | inr f ↦
            let (p, here, same, below) =
              Agree-peer net.registry.next_generation s (get addr net.peers) (
                subst (λ x. Agree net.registry.next_generation x (get addr net.peers)) e
                  (h addr)) in
            let after = close_on-ends net addr generation s p e f here same in
            (
              parted p,
              ap (λ n. get addr n.peers) after
                  ∙ get-insert addr addr (parted p) net.peers
                  ∙ rw (text_eq_refl addr) refl,
              refl,
              refl,
              ap (λ n. get addr n.registry.sessions) after
                  ∙ get-remove addr addr net.registry.sessions
                  ∙ rw (text_eq_refl addr) refl,
            )
      ]
    ]

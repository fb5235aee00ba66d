-- ===== src/P2p/Peers/Generations.antt =====
-- The table under every sequence of its operations: no peer is lost, and the generation of a peer
-- never falls, so that the end of an old session cannot disconnect a newer one.
use vision_core.Prelude.{
  ℕ, ◌≡◌, ◌≤◌, ◌<◌, refl, ◌∙◌, sym, ap, max, Bool, false, Option, some, ltb, ◌==◌, if◌then◌else◌,
  unwrap_or, Result-cases, Bool-cases, Option-cases, inl, inr, arith,
}
use mathlib.Core.Option
use vision_core.Prelude.Text.{Text, text_eq, text_eq_refl}
use vision_core.Prelude.Map.{get}
use vision_core.Prelude.Map.Laws.{get-insert}
use vision_core.P2p.Protocol.{ChainSummary, HandshakeMessage}
use vision_core.P2p.Peers.{
  Peer, PeerState, connected, connecting, disconnected, known_only, PeerManager, generation_of,
  peer_generation, update, upsert, set_state, disconnect_if_generation, connect_session,
  note_peer_height, note_peer_summary_from, record_height_poll_sent, note_observed_addr,
  clear_peer_summary, is_disconnecting, take_summary, is_stale, should_update,
}
use vision_core.P2p.Peers.Inbound.{
  IpAddr, resolve_inbound_peer_key, validated_advertised_addr, observe,
}
use vision_core.P2p.Peers.Grows.{
  Grows, Grows-refl, Grows-trans, some-injective, not_some, Raises, update-Grows, entry-Grows,
  disconnect-Grows,
}

-- One call of a method that writes.
pub data Step (m : PeerManager) : PeerManager → Type 0 where
  upserts : (addr : Text) (is_outbound : Bool) → Step m (upsert m addr is_outbound)
  moves : (addr : Text) (state : PeerState) → Step m (set_state m addr state)
  ends : (addr : Text) (generation : ℕ) → Step m (disconnect_if_generation m addr generation).0
  connects : (addr : Text) (generation : ℕ) → Step m (connect_session m addr generation)
  hears_height : (now : ℕ) (addr : Text) (height : ℕ) → Step m (note_peer_height now m addr height)
  hears_summary :
      (now : ℕ) (addr : Text) (s : ChainSummary) (generation : Option ℕ) (source : Option Text)
      → Step m (note_peer_summary_from now m addr s generation source)
  polls : (now : ℕ) (addr : Text) → Step m (record_height_poll_sent now m addr)
  observes : (addr observed_addr : Text) → Step m (note_observed_addr m addr observed_addr)
  resolves :
      (parse_ip : Text → Option IpAddr) (trim : Text → Text) (observed_addr : Text)
      (hs : HandshakeMessage) (allow_private : Bool)
      → Step m (resolve_inbound_peer_key parse_ip trim m observed_addr hs allow_private).0

pub data Reach (m : PeerManager) : PeerManager → Type 0 where
  here : Reach m m
  next : {n o : PeerManager} → Reach m n → Step n o → Reach m o

set_state-Raises :
    (state : PeerState) (p : Peer)
    → p.connection_generation
      ≤ (if is_disconnecting state
          then clear_peer_summary (record p { state = state })
          else record p { state = state }).connection_generation
unfolding clear_peer_summary
set_state-Raises connected p = omega arith
set_state-Raises connecting p = omega arith
set_state-Raises disconnected p = omega arith
set_state-Raises known_only p = omega arith

take_summary-Raises :
    (now : ℕ) (s : ChainSummary) (generation : Option ℕ) (source : Option Text)
    → Raises (take_summary now s generation source)
unfolding take_summary
take_summary-Raises now s generation source p = elim (Bool-cases (is_stale generation p)) [
  | inl e ↦ rw (e, take_summary) (omega arith)
  | inr e ↦
      rw (e, take_summary)
        (elim (Bool-cases (should_update s p)) [
          | inl f ↦ rw f (omega arith)
          | inr f ↦ rw f (omega arith)
        ])
]

height-Raises :
    (now height : ℕ)
    → Raises (λ p.
      let active = record p { last_activity = some now; last_height_response_at = some now } in
      if ltb height p.height
      then active
      else record active { height = height; last_height_updated_at = some now })
height-Raises now height p = elim (Bool-cases (ltb height p.height)) [
  | inl e ↦ rw e (omega arith)
  | inr e ↦ rw e (omega arith)
]

observe-Raises : (durable_addr observed_addr : Text) → Raises (observe durable_addr observed_addr)
observe-Raises durable_addr observed_addr p =
    elim (Bool-cases (text_eq durable_addr observed_addr)) [
      | inl e ↦ rw e (omega arith)
      | inr e ↦ rw e (omega arith)
    ]

resolve-Grows :
    (m : PeerManager) (parse_ip : Text → Option IpAddr) (trim : Text → Text) (observed_addr : Text)
    (hs : HandshakeMessage) (allow_private : Bool)
    → Grows m (resolve_inbound_peer_key parse_ip trim m observed_addr hs allow_private).0
unfolding resolve_inbound_peer_key
resolve-Grows m parse_ip trim observed_addr hs allow_private =
    elim (Result-cases
      (validated_advertised_addr parse_ip trim hs.advertised_ip hs.advertised_port allow_private)) [
        | inr (x, e) ↦ rw (e, resolve_inbound_peer_key) (Grows-refl m)
        | inl (advertised, e) ↦
            rw (e, resolve_inbound_peer_key)
              (entry-Grows _ _ _ m
                (observe-Raises (unwrap_or advertised observed_addr) observed_addr))
      ]

Step-Grows : {m n : PeerManager} → Step m n → Grows m n
unfolding upsert set_state connect_session note_peer_height note_peer_summary_from
    record_height_poll_sent note_observed_addr
Step-Grows {m} (upserts addr is_outbound) = entry-Grows _ _ addr m (λ p. omega arith)
Step-Grows {m} (moves addr state) = update-Grows _ addr m (λ p. set_state-Raises state p)
Step-Grows {m} (ends addr generation) = disconnect-Grows m addr generation
Step-Grows {m} (connects addr generation) = update-Grows _ addr m (λ p. omega arith)
Step-Grows {m} (hears_height now addr height) = update-Grows _ addr m (height-Raises now height)
Step-Grows {m} (hears_summary now addr s generation source) =
    update-Grows _ addr m (take_summary-Raises now s generation source)
Step-Grows {m} (polls now addr) = update-Grows _ addr m (λ p. omega arith)
Step-Grows {m} (observes addr observed_addr) = update-Grows _ addr m (λ p. omega arith)
Step-Grows {m} (resolves parse_ip trim observed_addr hs allow_private) =
    resolve-Grows m parse_ip trim observed_addr hs allow_private

Reach-Grows : {m n : PeerManager} → Reach m n → Grows m n
Reach-Grows {m} here = Grows-refl m
Reach-Grows {m} (next r s) = Grows-trans _ _ _ (Reach-Grows r) (Step-Grows s)

-- A known peer that is connected has the generation of the session or a newer one.
connected_generation :
    (m : PeerManager) (addr : Text) (generation newer : ℕ)
    → peer_generation m addr ≡ some generation
    → peer_generation (connect_session m addr newer) addr ≡ some (max generation newer)
unfolding connect_session update
connected_generation m addr generation newer known = elim (Option-cases (get addr m)) [
  | inl e ↦ absurd (not_some generation (ap (Option.map generation_of) (sym e) ∙ known))
  | inr (p, e) ↦
      let same = some-injective (ap (Option.map generation_of) (sym e) ∙ known) in
      rw (e, update)
        (ap (Option.map generation_of) (get-insert addr addr _ m)
          ∙ rw (text_eq_refl addr) (ap (λ g. some (max g newer)) same))
]

-- Once a session has connected a known peer, the end of any older session leaves the table as it
-- is, whatever calls were made in between.
pub stale_session_ends :
    (m n : PeerManager) (addr : Text) (older newer generation : ℕ)
    → peer_generation m addr ≡ some generation
    → older < newer
    → Reach (connect_session m addr newer) n
    → disconnect_if_generation n addr older ≡ (n, false)
unfolding disconnect_if_generation
stale_session_ends m n addr older newer generation known lt r =
    let (g, now_at, le) =
      Reach-Grows r addr (max generation newer)
        (connected_generation m addr generation newer known) in
    elim (Option-cases (get addr n)) [
      | inl e ↦ absurd (not_some g (ap (Option.map generation_of) (sym e) ∙ now_at))
      | inr (p, e) ↦
          let same = some-injective (ap (Option.map generation_of) (sym e) ∙ now_at) in
          let other : (p.connection_generation == older) ≡ false = ground (arith, same, lt, le) in
          rw (e, disconnect_if_generation) (rw other refl)
    ]

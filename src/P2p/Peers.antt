-- ===== src/P2p/Peers.antt =====
-- p2p/peer_manager.rs: the table of peers. An `Instant` is a number of nanoseconds, and every
-- operation that reads the clock takes it as `now`. Each method holds the lock for its whole body.
pub mod Inbound
pub mod Dial
pub mod Grows
pub mod Select
pub mod Generations
use vision_core.Prelude.{
  ℕ, ◌-◌, ◌/◌, max, Bool, true, false, not, ◌&&◌, ◌||◌, Option, none, some, List, [], ◌∷◌, ◌++◌,
  map, keep_if, length, take, ltb, leb, ◌==◌, if◌then◌else◌, is_some, unwrap_or,
}
use mathlib.Core.Option
use vision_core.Prelude.Text.{Text, text_eq}
use vision_core.Prelude.Map.{Map, get, insert, values}
use vision_core.P2p.Protocol.{ChainSummary}

abbrev pub peer_height_stale_secs : ℕ
peer_height_stale_secs = 45

abbrev pub height_poll_response_window_secs : ℕ
height_poll_response_window_secs = 10

pub data PeerState : Type 0 where
  connected connecting disconnected known_only : PeerState

pub record Peer : Type 0 where
  pub addr : Text
  pub observed_addr : Option Text
  pub advertised_addr : Option Text
  pub state : PeerState
  pub is_outbound : Bool
  pub height : ℕ
  pub tip_hash : Option Text
  pub cumulative_work : ℕ
  pub last_height_updated_at : Option ℕ
  pub last_height_poll_sent_at : Option ℕ
  pub last_height_response_at : Option ℕ
  pub last_activity : Option ℕ
  pub connection_generation : ℕ
  pub summary_generation : Option ℕ
  pub summary_source : Option Text

unfoldable pub new : Text → Bool → Peer
new addr is_outbound = record {
  addr = addr;
  observed_addr = none;
  advertised_addr = none;
  state = known_only;
  is_outbound = is_outbound;
  height = 0;
  tip_hash = none;
  cumulative_work = 0;
  last_height_updated_at = none;
  last_height_poll_sent_at = none;
  last_height_response_at = none;
  last_activity = none;
  connection_generation = 0;
  summary_generation = none;
  summary_source = none;
}

-- `elapsed().as_secs()`, which is 0 for an instant ahead of the clock
abbrev pub elapsed_secs : ℕ → ℕ → ℕ
elapsed_secs now t = (now - t) / 1000000000

unfoldable pub is_height_fresh : ℕ → Peer → Bool
is_height_fresh now p = elim p.last_height_updated_at [
  | none ↦ false
  | some t ↦ ltb (elapsed_secs now t) peer_height_stale_secs
]

abbrev pub poll_stalled : ℕ → Option ℕ → Option ℕ → Bool
poll_stalled now (some sent) (some recv) =
    ltb recv sent && leb height_poll_response_window_secs (elapsed_secs now sent)
poll_stalled now (some sent) none = leb height_poll_response_window_secs (elapsed_secs now sent)
poll_stalled now none recv = false

unfoldable pub is_height_poll_stalled : ℕ → Peer → Bool
is_height_poll_stalled now p = poll_stalled now p.last_height_poll_sent_at p.last_height_response_at

unfoldable pub summary : Peer → ChainSummary
summary p = record { height = p.height; tip_hash = p.tip_hash; cumulative_work = p.cumulative_work }

abbrev pub is_connected : PeerState → Bool
is_connected connected = true
is_connected _ = false

-- `matches!(state, PeerState::Disconnected | PeerState::KnownOnly)`
abbrev pub is_disconnecting : PeerState → Bool
is_disconnecting disconnected = true
is_disconnecting known_only = true
is_disconnecting _ = false

unfoldable pub clear_peer_summary : Peer → Peer
clear_peer_summary p = record p {
  height = 0;
  tip_hash = none;
  cumulative_work = 0;
  last_height_updated_at = none;
  last_height_response_at = none;
  last_height_poll_sent_at = none;
  summary_generation = none;
  summary_source = none;
}

-- The `HashMap` behind the lock. The code iterates over it only for what no order changes.
abbrev pub PeerManager : Type 0
PeerManager = Map Peer

-- `if let Some(peer) = peers.get_mut(addr)`
unfoldable pub update : (Peer → Peer) → Text → PeerManager → PeerManager
unfolding get insert
update f addr peers = elim (get addr peers) [ none ↦ peers | some p ↦ insert addr (f p) peers ]

-- `entry(addr).and_modify(f).or_insert_with(fresh)`
unfoldable pub entry : (Peer → Peer) → Peer → Text → PeerManager → PeerManager
unfolding get insert
entry f fresh addr peers = elim (get addr peers) [
  | none ↦ insert addr fresh peers
  | some p ↦ insert addr (f p) peers
]

unfoldable pub upsert : PeerManager → Text → Bool → PeerManager
unfolding entry new
upsert peers addr is_outbound =
    entry (λ p. record p { is_outbound = p.is_outbound || is_outbound }) (new addr is_outbound) addr
      peers

unfoldable pub set_state : PeerManager → Text → PeerState → PeerManager
unfolding update clear_peer_summary
set_state peers addr state =
    update
      (λ p.
        let moved = record p { state = state } in
        if is_disconnecting state then clear_peer_summary moved else moved)
      addr peers

unfoldable pub disconnect_if_generation : PeerManager → Text → ℕ → PeerManager × Bool
unfolding get insert clear_peer_summary
disconnect_if_generation peers addr generation = elim (get addr peers) [
  | none ↦ (peers, false)
  | some p ↦
      if not (p.connection_generation == generation)
      then (peers, false)
      else (insert addr (clear_peer_summary (record p { state = disconnected })) peers, true)
]

unfoldable pub connect_session : PeerManager → Text → ℕ → PeerManager
unfolding update
connect_session peers addr generation =
    update
      (λ p. record p {
        connection_generation = max p.connection_generation generation;
        state = connected;
      })
      addr peers

unfoldable pub note_peer_height : ℕ → PeerManager → Text → ℕ → PeerManager
unfolding update
note_peer_height now peers addr height =
    update
      (λ p.
        let active = record p { last_activity = some now; last_height_response_at = some now } in
        if ltb height p.height
        then active
        else record active { height = height; last_height_updated_at = some now })
      addr peers

-- `summary.cumulative_work > peer.cumulative_work || summary.height >= peer.height || ...`
abbrev pub should_update : ChainSummary → Peer → Bool
should_update s p =
    ltb p.cumulative_work s.cumulative_work || leb p.height s.height || not (is_some p.tip_hash)

abbrev pub or_else : Option ℕ → Option ℕ → Option ℕ
or_else none other = other
or_else (some x) other = some x

-- `generation.map(|generation| generation < peer.connection_generation).unwrap_or(false)`
abbrev pub is_stale : Option ℕ → Peer → Bool
is_stale none p = false
is_stale (some generation) p = ltb generation p.connection_generation

-- What a summary makes of its peer.
unfoldable pub take_summary : ℕ → ChainSummary → Option ℕ → Option Text → Peer → Peer
take_summary now s generation source p =
    if is_stale generation p
    then p
    else let updated = record p {
      height = s.height;
      tip_hash = s.tip_hash;
      cumulative_work = s.cumulative_work;
      last_height_updated_at = some now;
      summary_generation = or_else generation (some p.connection_generation);
      summary_source = source;
    } in
      record (if should_update s p then updated else p) {
        last_height_response_at = some now;
        last_activity = some now;
      }

unfoldable pub note_peer_summary_from :
    ℕ → PeerManager → Text → ChainSummary → Option ℕ → Option Text → PeerManager
unfolding update take_summary
note_peer_summary_from now peers addr s generation source =
    update (take_summary now s generation source) addr peers

unfoldable pub note_peer_summary : ℕ → PeerManager → Text → ChainSummary → PeerManager
unfolding note_peer_summary_from
note_peer_summary now peers addr s = note_peer_summary_from now peers addr s none none

unfoldable pub record_height_poll_sent : ℕ → PeerManager → Text → PeerManager
unfolding update
record_height_poll_sent now peers addr =
    update (λ p. record p { last_height_poll_sent_at = some now }) addr peers

unfoldable pub note_observed_addr : PeerManager → Text → Text → PeerManager
unfolding update
note_observed_addr peers peer_addr observed_addr =
    update (λ p. record p { observed_addr = some observed_addr }) peer_addr peers

abbrev pub generation_of : Peer → ℕ
generation_of p = p.connection_generation

abbrev pub peer_generation : PeerManager → Text → Option ℕ
peer_generation peers addr = Option.map generation_of (get addr peers)

abbrev pub peer_summary : PeerManager → Text → Option ChainSummary
peer_summary peers addr = Option.map summary (get addr peers)

-- ===== src/Tests/Peers.antt =====
-- Runs of the table of peers, the sessions, the frames and the synchronisation.
use vision_core.Prelude.{
  ℕ, ◌≡◌, refl, true, false, Option, none, some, All, List, [], ◌∷◌, ◌++◌, keep_if, leb,
  if◌then◌else◌, ok, err, arith,
}
use vision_core.Prelude.Text.{Text, text, text_eq, cmp}
use vision_core.Prelude.Bytes.{Bytes}
use vision_core.Prelude.Map.{Map, get, values}
use vision_core.Chain.Accept.{genesis_hash}
use vision_core.P2p.Protocol.{P2PMessage, get_height, disconnect, block_body}
use vision_core.P2p.Peers.{
  Peer, PeerManager, new, connected, disconnected, upsert, connect_session,
  disconnect_if_generation, peer_generation,
}
use vision_core.P2p.Peers.Select.{best_work_sync_target, by_work, has_more_work}
use vision_core.P2p.Peers.Select.Best.{IsBest, best_work_sync_target-IsBest}
use vision_core.P2p.Peers.Generations.{here, stale_session_ends}
use vision_core.P2p.Peers.Inbound.{v4, is_private_like_ip, is_private_v4}
use vision_core.P2p.Peers.Dial.{SocketAddr, validate_dial_address}
use vision_core.Node.Dial.{Supervisor, peer_dial_supervisor, supervise_all, supervise, schedule}
use vision_core.Node.Dial.Limits.{IsDialling, Covers, peer_dial_supervisor-IsDialling}
use vision_core.P2p.Sessions as Sessions
use vision_core.P2p.Sessions.{unregister, register, take_generation, add_session}
use vision_core.P2p.Sessions.Lifecycle.{Net, open_on, close_on, opens, learns}
use vision_core.P2p.Sessions.Lifecycle.Ends.{started, later, last_close_disconnects}
use vision_core.P2p.Sessions.Race.{open_both, interleaved_registers_keep_connected}
use vision_core.P2p.Wire.{Wire, frame, recv_message, max_message_bytes, recv_message-frame}
use vision_core.P2p.Sync.{SyncGuard}
use vision_core.P2p.Sync as Sync
use vision_core.P2p.Sync.Host.{Host, Event, Schedule}
use vision_core.P2p.Sync.Fetch.{fetch_branch, live_sync_from_peer}
use vision_core.P2p.Sync.Fetch.Links.{IsFetch, fetch_branch-IsFetch}
use vision_core.P2p.Sync.Import.Ledger.{KeepsBooks}
use vision_core.P2p.Sync.Watchdog.{watchdog_step}
use vision_core.P2p.Sync.Watchdog.Cooldown.{IsReady, watchdog_step-IsReady}
use vision_core.P2p.Sync.Watchdog.Ledger.{host_of, watchdog_step-HasLedger}
use vision_core.Tests.Host.{host, memory_store, zero_digest}
use vision_core.Tests.Chains.{child, young-HasLedger}
use vision_core.Tests.Samples.{alice, bob, young_node}

-- Two live peers with other tips, of work 7 and 9.
abbrev live : Text → ℕ → Peer
live addr work = record (new addr true) {
  state = connected;
  height = 3;
  tip_hash = some bob;
  cumulative_work = work;
  last_height_updated_at = some 1000;
}

abbrev table : PeerManager
table = (alice, live alice 7) ∷ (bob, live bob 9) ∷ []

chosen : best_work_sync_target 2000 table genesis_hash 5 ≡ some bob
unfolding best_work_sync_target text_eq new cmp
chosen = refl

best_work_sync_target-IsBest_example :
    (m : Peer) × (m.addr ≡ bob)
    × (has_more_work 2000 genesis_hash 5 m ≡ true)
    × IsBest by_work m (keep_if (has_more_work 2000 genesis_hash 5) (values table))
best_work_sync_target-IsBest_example =
    best_work_sync_target-IsBest 2000 table genesis_hash 5 bob chosen

known_generation : peer_generation table alice ≡ some 0
unfolding get new cmp
known_generation = refl

stale_session_ends_example :
    disconnect_if_generation (connect_session table alice 5) alice 3
    ≡ (connect_session table alice 5, false)
stale_session_ends_example =
    stale_session_ends table (connect_session table alice 5) alice 3 5 0 known_generation
      (omega arith) here

-- A peer with one session.
abbrev quiet : Net
quiet = record { registry = Sessions.new; peers = upsert [] alice true }

quiet_knows : get alice quiet.peers ≡ some (new alice true)
unfolding upsert get cmp
quiet_knows = refl

last_one : (unregister (open_on quiet alice).registry alice 1).1 ≡ some 1
unfolding unregister open_on text_eq cmp
last_one = refl

last_close_disconnects_example :
    (p : Peer) × (get alice (close_on (open_on quiet alice) alice 1).peers ≡ some p)
    × (p.state ≡ disconnected)
    × (p.tip_hash ≡ none)
    × (get alice (close_on (open_on quiet alice) alice 1).registry.sessions ≡ none)
last_close_disconnects_example =
    last_close_disconnects (open_on quiet alice) alice 1 1
      (later (later started (learns alice true)) (opens alice (rw quiet_knows refl) (omega arith)))
      last_one

interleaved_registers_keep_connected_example :
    (get alice (close_on (close_on (open_both quiet alice) alice 1) alice 2).registry.sessions
      ≡ none)
    × ((q : Peer) × (get alice (close_on (close_on (open_both quiet alice) alice 1) alice 2).peers
          ≡ some q)
        × (q.state ≡ connected))
unfolding new get
interleaved_registers_keep_connected_example =
    interleaved_registers_keep_connected quiet alice (new alice true) quiet_knows refl (omega arith)
      (omega arith)

-- A codec of one message.
instance abbrev one_message : Wire
one_message = record {
  serialize_message = λ message. 1 ∷ 2 ∷ 3 ∷ [];
  deserialize_message = λ bytes. some get_height;
}

recv_message-frame_example :
    recv_message (frame get_height ++ 9 ∷ [])
    ≡ (if leb 3 max_message_bytes then ok (get_height, 9 ∷ []) else err (text "oversized message"))
recv_message-frame_example = recv_message-frame get_height (9 ∷ []) refl (omega arith)

abbrev node_host : Host (Map Bytes)
node_host = record { node = young_node; pool = none; peers = table; recovery = none }

-- A peer that sends a block that was not asked for, and one that refuses the handshake.
abbrev sent : P2PMessage → Event (Map Bytes)
sent message = record { received = ok message; others = λ h. h; now = 3000 }

fetch_branch-IsFetch_example :
    IsFetch alice (fetch_branch alice node_host (sent (block_body child) ∷ []))
fetch_branch-IsFetch_example = fetch_branch-IsFetch alice node_host (sent (block_body child) ∷ [])

abbrev calm : Schedule (Map Bytes)
calm = record { clock = λ k. 1100; others = λ k h. h }

abbrev refusal : List (Event (Map Bytes))
refusal = sent (disconnect (text "busy")) ∷ []

watchdog_step-HasLedger_example : KeepsBooks (
    host_of (
      watchdog_step
        (λ peer met. live_sync_from_peer (λ r. text "no") calm 2500 (ok tt) 7 peer met refusal)
        2000
        3000
        node_host
        Sync.new))
watchdog_step-HasLedger_example =
    watchdog_step-HasLedger (λ r. text "no") calm (ok tt) 7 2000 2500 3000 refusal Sync.new
      node_host (λ k h p. p) ((λ h p. p), tt) young-HasLedger

watchdog_step-IsReady_example : IsReady Sync.new 3000 (
    watchdog_step
      (λ peer met. live_sync_from_peer (λ r. text "no") calm 2500 (ok tt) 7 peer met refusal)
      2000
      3000
      node_host
      Sync.new)
watchdog_step-IsReady_example =
    watchdog_step-IsReady
      (λ peer met. live_sync_from_peer (λ r. text "no") calm 2500 (ok tt) 7 peer met refusal) 2000
      3000 Sync.new node_host

-- A parser that knows one public address.
abbrev known_socket : Text → Option SocketAddr
known_socket t =
    if text_eq t alice then some (record { ip = v4 198 51 100 9; port = 9001 }) else none

abbrev dialled : Supervisor
dialled =
    peer_dial_supervisor known_socket (λ s. alice) (λ s. false) false [] (alice ∷ bob ∷ alice ∷ [])

alice_dialled : dialled.started ≡ alice ∷ []
unfolding peer_dial_supervisor supervise_all supervise schedule validate_dial_address
    is_private_like_ip is_private_v4 text_eq cmp
alice_dialled = refl

peer_dial_supervisor-IsDialling_example :
    IsDialling known_socket (λ s. alice) (λ s. false) false dialled
    × All (Covers known_socket (λ s. alice) (λ s. false) false dialled) (alice ∷ bob ∷ alice ∷ [])
peer_dial_supervisor-IsDialling_example =
    peer_dial_supervisor-IsDialling known_socket (λ s. alice) (λ s. false) false []
      (alice ∷ bob ∷ alice ∷ [])

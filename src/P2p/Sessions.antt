-- ===== src/P2p/Sessions.antt =====
-- p2p/connection.rs: the registry of sessions, with the queue of each. The atomic counter and the map
-- are one state. `register` is two steps, since another thread may run between its counter and its lock;
-- every other method is one.
pub mod Lifecycle
pub mod Race
use vision_core.Prelude.{
  ℕ, ◌+◌, ◌%◌, Bool, true, false, not, ◌&&◌, ◌||◌, Option, none, some, List, [], ◌∷◌, ◌++◌, map,
  keep_if, length, any, ltb, leb, ◌==◌, if◌then◌else◌,
}
use vision_core.Prelude.Text.{Text, text_eq}
use vision_core.Prelude.Bytes.{u64_mod}
use vision_core.Prelude.Map.{Map, get, insert, remove}
use vision_core.Types.{Block, hash}
use vision_core.P2p.Protocol.{P2PMessage, announce_block, AnnounceBlock}

abbrev pub session_outbound_capacity : ℕ
session_outbound_capacity = 32

-- `SessionSender`, with what its bounded channel holds, and whether the receiver still lives.
pub record SessionSender : Type 0 where
  pub generation : ℕ
  pub queued : List P2PMessage
  pub receiver_lives : Bool

pub record PeerSessions : Type 0 where
  pub latest_generation : ℕ
  pub active : List SessionSender

pub record PeerSessionRegistry : Type 0 where
  pub next_generation : ℕ
  pub sessions : Map PeerSessions

abbrev pub new : PeerSessionRegistry
new = record { next_generation = 1; sessions = [] }

abbrev pub open_session : ℕ → SessionSender
open_session generation = record { generation = generation; queued = []; receiver_lives = true }

abbrev pub sessions_at : PeerSessionRegistry → Text → List SessionSender
sessions_at r peer_addr = elim (get peer_addr r.sessions) [ none ↦ [] | some s ↦ s.active ]

-- `fetch_add` on the counter, which comes before the lock.
unfoldable pub take_generation : PeerSessionRegistry → PeerSessionRegistry × ℕ
take_generation r =
    (record r { next_generation = (r.next_generation + 1) % u64_mod }, r.next_generation)

-- The rest of `register`, under the lock.
unfoldable pub add_session : PeerSessionRegistry → Text → ℕ → PeerSessionRegistry
unfolding get insert
add_session r peer_addr generation = record r {
  sessions =
      insert peer_addr
        (record {
          latest_generation = generation;
          active = sessions_at r peer_addr ++ open_session generation ∷ [];
        })
        r.sessions;
}

-- The new registry, and the generation of the session.
unfoldable pub register : PeerSessionRegistry → Text → PeerSessionRegistry × ℕ
unfolding take_generation add_session
register r peer_addr =
    let (counted, generation) = take_generation r in
    (add_session counted peer_addr generation, generation)

unfoldable pub unregister : PeerSessionRegistry → Text → ℕ → PeerSessionRegistry × Option ℕ
unfolding get insert remove
unregister r peer_addr generation = elim (get peer_addr r.sessions) [
  | none ↦ (r, none)
  | some s ↦
      let kept = keep_if (λ x. not (x.generation == generation)) s.active in
      if length kept == length s.active || not (length kept == 0)
      then (record r { sessions = insert peer_addr (record s { active = kept }) r.sessions }, none)
      else (record r { sessions = remove peer_addr r.sessions }, some s.latest_generation)
]

-- `try_send`: refused by a full channel, or one without a receiver.
abbrev pub can_send : SessionSender → Bool
can_send s = s.receiver_lives && ltb (length s.queued) session_outbound_capacity

-- `any` over `try_send`: the first session that takes the message gets it.
unfoldable pub send_to_first : P2PMessage → List SessionSender → List SessionSender × Bool
send_to_first message [] = ([], false)
send_to_first message (s ∷ ss) =
    let rest = send_to_first message ss in
    if can_send s
    then (record s { queued = s.queued ++ message ∷ [] } ∷ ss, true)
    else (s ∷ rest.0, rest.1)

abbrev pub is_excluded : Option Text → Text → Bool
is_excluded none peer_addr = false
is_excluded (some excluded) peer_addr = text_eq excluded peer_addr

-- The loop over the peers, with the count of those reached.
unfoldable pub announce_to : P2PMessage → Option Text → Map PeerSessions → Map PeerSessions × ℕ
unfolding send_to_first text_eq
announce_to message exclude_peer [] = ([], 0)
announce_to message exclude_peer ((peer_addr, s) ∷ rest) =
    let (others, reached) = announce_to message exclude_peer rest in
    let (active, sent) = send_to_first message s.active in
    if is_excluded exclude_peer peer_addr
    then ((peer_addr, s) ∷ others, reached)
    else ((peer_addr, record s { active = active }) ∷ others, if sent then reached + 1 else reached)

abbrev pub announcement : Block → P2PMessage
announcement block =
    announce_block
      (record { height = block.header.number; hash = hash block; prev = block.header.parent_hash })

unfoldable pub announce : PeerSessionRegistry → Block → Option Text → PeerSessionRegistry × ℕ
unfolding announce_to
announce r block exclude_peer =
    let (sessions, reached) = announce_to (announcement block) exclude_peer r.sessions in
    (record r { sessions = sessions }, reached)

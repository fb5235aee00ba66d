-- ===== src/P2p/Sync/Fetch.antt =====
-- p2p/sync.rs: `live_sync_from_peer`, the conversation with a peer on a stream of its own. The events
-- of the waits come as a list; at its end the task still waits. What it sends is not modelled, but
-- an error of a send is an event's, as is a timeout.
pub mod Links
pub mod Books
use vision_core.Prelude.{
  ℕ, zero, suc, ◌+◌, Bool, true, false, not, ◌&&◌, ◌||◌, Option, none, some, List, [], ◌∷◌, ◌++◌,
  ltb, ◌==◌, if◌then◌else◌, is_some, Result, ok, err,
}
use vision_core.Prelude.Text.{Text, text, text_eq}
use vision_core.Prelude.Map.{Map, insert, contains_key}
use vision_core.Types.{Block, hash}
use vision_core.External.{External}
use vision_core.Store.{Sled}
use vision_core.Store.Decimal.{decimal}
use vision_core.Chain.{VisionX, block_by_hash}
use vision_core.Chain.Accept.{RejectReason}
use vision_core.P2p.Protocol.{
  ChainSummary, P2PMessage, handshake, ping, pong, get_height, height_is, announce_block, get_block,
  block_body, disconnect, HandshakeMessage, HandshakeResult, accepted, version_mismatch,
  wrong_chain_id, wrong_genesis_hash, wrong_econ_hash, wrong_pow_params, self_connection, label,
  from_chain, validate_handshake,
}
use vision_core.P2p.Peers.{note_peer_height, note_peer_summary}
use vision_core.P2p.Sync.Host.{Host, Event, Schedule}
use vision_core.P2p.Sync.Import.{import_fetched_blocks}

-- Where a conversation stands after the events.
pub data Talk {ℓ} (Db : Type 0) (A : Type ℓ) : Type ℓ where
  waiting : Host Db → Talk Db A
  failed : Host Db → Text → Talk Db A
  reached : A → Host Db → List (Event Db) → Talk Db A

-- `?`, and the wait that it passes on.
infixl 5 ◌>>=◌
abbrev pub ◌>>=◌ {ℓ κ} :
    {Db : Type 0} {A : Type ℓ} {B : Type κ}
    → Talk Db A
    → (A → Host Db → List (Event Db) → Talk Db B)
    → Talk Db B
waiting h >>= f = waiting h
failed h e >>= f = failed h e
reached a h events >>= f = f a h events

-- `{:?}` of a handshake's result
unfoldable pub debug : HandshakeResult → Text
debug accepted = text "Accepted"
debug (version_mismatch remote ours) =
    text "VersionMismatch { remote: "
    ++ decimal remote
    ++ text ", ours: "
    ++ decimal ours
    ++ text " }"
debug wrong_chain_id = text "WrongChainId"
debug wrong_genesis_hash = text "WrongGenesisHash"
debug wrong_econ_hash = text "WrongEconHash"
debug wrong_pow_params = text "WrongPowParams"
debug self_connection = text "SelfConnection"

-- What a message means while one kind of reply is awaited.
pub data Answer (A : Type 0) : Type 0 where
  ignore : Answer A
  got : A → Answer A
  refuse : Text → Answer A

unfoldable pub handshake_answer : P2PMessage → Answer HandshakeMessage
unfolding label
handshake_answer (handshake hs) = got hs
handshake_answer (disconnect reason) = refuse (text "peer rejected sync handshake: " ++ reason)
handshake_answer other = refuse (text "unexpected handshake reply: " ++ label other)

unfoldable pub height_answer : P2PMessage → Answer ChainSummary
unfolding label
height_answer (height_is summary) = got summary
height_answer get_height = ignore
height_answer (ping timestamp) = ignore
height_answer (disconnect reason) = refuse (text "peer rejected height query: " ++ reason)
height_answer other = refuse (text "unexpected height reply: " ++ label other)

unfoldable pub block_answer : P2PMessage → Answer Block
unfolding label
block_answer (block_body block) = got block
block_answer (announce_block announcement) = ignore
block_answer get_height = ignore
block_answer (ping timestamp) = ignore
block_answer (disconnect reason) = refuse (text "peer rejected block request: " ++ reason)
block_answer other = refuse (text "unexpected block reply: " ++ label other)

abbrev pub answer_of : {A : Type 0} → (P2PMessage → Answer A) → Result P2PMessage Text → Answer A
answer_of f (ok message) = f message
answer_of f (err e) = refuse e

-- Of the head of the fetching loop: the hash is known, or was asked for before, or is asked for.
pub data Look : Type 0 where
  known loops ask : Look

-- The tips differ, where either may be missing.
abbrev pub tips_differ : Option Text → Option Text → Bool
tips_differ none none = false
tips_differ (some a) (some b) = not (text_eq a b)
tips_differ _ _ = true

-- The peer is ahead by height, or by work on another tip.
abbrev pub is_ahead : ChainSummary → ChainSummary → Bool
is_ahead remote_summary local_summary =
    ltb local_summary.height remote_summary.height
    || (ltb local_summary.cumulative_work remote_summary.cumulative_work
        && tips_differ remote_summary.tip_hash local_summary.tip_hash)

module _ {Db : Type 0} where
  -- The query for the height, of `limit` messages at most.
  unfoldable pub height_query : ℕ → Text → Host Db → List (Event Db) → Talk Db ChainSummary
  unfolding height_answer
  height_query zero peer_addr h events =
      failed h (text "height query exceeded message limit for " ++ peer_addr)
  height_query (suc limit) peer_addr h [] = waiting h
  height_query (suc limit) peer_addr h (e ∷ events) = elim (answer_of height_answer e.received) [
    | got summary ↦ reached summary (e.others h) events
    | ignore ↦ height_query limit peer_addr (e.others h) events
    | refuse reason ↦ failed (e.others h) reason
  ]

  unfoldable pub look : Host Db → Text → Map (Unit {0}) → Look
  unfolding block_by_hash
  look h current_hash seen =
      if is_some (block_by_hash h.node.chain current_hash)
      then known
      else if contains_key current_hash seen
      then loops
      else ask

  -- The wait for the block of `current_hash`, and the rest of the loop; the blocks fetched so far
  -- are held with the last one first, which is their order after `reverse`.
  unfoldable pub await_block :
      Text → List Block → Map (Unit {0}) → Host Db → List (Event Db) → Talk Db (List Block)
  unfolding block_answer look
  await_block current_hash fetched seen h [] = waiting h
  await_block current_hash fetched seen h (e ∷ events) = elim (answer_of block_answer e.received) [
    | refuse reason ↦ failed (e.others h) reason
    | ignore ↦ await_block current_hash fetched seen (e.others h) events
    | got block ↦ elim (text_eq (hash block) current_hash) [
      | false ↦
          failed (e.others h)
            (text "requested block " ++ current_hash ++ text " but received " ++ hash block)
      | true ↦ elim (block.header.number == 0) [
        | true ↦ reached (block ∷ fetched) (e.others h) events
        | false ↦ elim (look (e.others h) block.header.parent_hash seen) [
          | known ↦ reached (block ∷ fetched) (e.others h) events
          | loops ↦ failed (e.others h) (text "sync loop detected at " ++ block.header.parent_hash)
          | ask ↦
              await_block block.header.parent_hash (block ∷ fetched)
                (insert block.header.parent_hash tt seen) (e.others h) events
        ]
      ]
    ]
  ]

  -- The loop from the peer's tip.
  unfoldable pub fetch_branch : Text → Host Db → List (Event Db) → Talk Db (List Block)
  unfolding await_block look
  fetch_branch remote_tip h events = elim (look h remote_tip []) [
    | ask ↦ await_block remote_tip [] (insert remote_tip tt []) h events
    | loops ↦ failed h (text "sync loop detected at " ++ remote_tip)
    | known ↦ reached [] h events
  ]

  module _ ⦃ext : External⦄ where
    -- The handshake, checked against the node's own nonce. Its reply is never ignored.
    unfoldable pub handshake_reply : ℕ → Text → Host Db → List (Event Db) → Talk Db (Unit {0})
    unfolding handshake_answer validate_handshake debug note_peer_height
    handshake_reply local_nonce peer_addr h [] = waiting h
    handshake_reply local_nonce peer_addr h (e ∷ events) =
        elim (answer_of handshake_answer e.received) [
          | ignore ↦ waiting (e.others h)
          | refuse reason ↦ failed (e.others h) reason
          | got hs ↦ elim (validate_handshake hs local_nonce) [
            | accepted ↦
                let met = e.others h in
                reached tt
                  (record met {
                    peers = note_peer_height e.now met.peers peer_addr hs.chain_height;
                  })
                  events
            | other ↦ failed (e.others h) (text "sync handshake rejected: " ++ debug other)
          ]
        ]

    module _ ⦃sled : Sled Db⦄ ⦃pow : VisionX⦄ (describe : RejectReason → Text)
        (schedule : Schedule Db) where
      -- The import of what was fetched.
      unfoldable pub import_branch : Text → Talk Db (List Block) → Talk Db ℕ
      unfolding import_fetched_blocks
      import_branch peer_addr (waiting h) = waiting h
      import_branch peer_addr (failed h e) = failed h e
      import_branch peer_addr (reached fetched h rest) =
          let (done, result) = import_fetched_blocks describe schedule 0 peer_addr fetched 0 h in
          elim result [ ok imported ↦ reached imported done rest | err e ↦ failed done e ]

      -- From the peer's summary on, heard at `now`.
      unfoldable pub catch_up : ℕ → Text → ChainSummary → Host Db → List (Event Db) → Talk Db ℕ
      unfolding note_peer_summary from_chain fetch_branch import_branch
      catch_up now peer_addr remote_summary h events =
          let noted = record h { peers = note_peer_summary now h.peers peer_addr remote_summary } in
          if not (is_ahead remote_summary (from_chain noted.node.chain))
          then reached 0 noted events
          else elim remote_summary.tip_hash [
            | none ↦
                failed noted
                  (text "peer reported no tip hash at height " ++ decimal remote_summary.height)
            | some remote_tip ↦ import_branch peer_addr (fetch_branch remote_tip noted events)
          ]

      -- The whole conversation, after the parse of the address and the connect; `now` is the clock
      -- at the height reply.
      unfoldable pub live_sync_from_peer :
          ℕ → Result (Unit {0}) Text → ℕ → Text → Host Db → List (Event Db) → Talk Db ℕ
      unfolding handshake_reply height_query catch_up
      live_sync_from_peer now (err e) local_nonce peer_addr h events = failed h e
      live_sync_from_peer now (ok opened) local_nonce peer_addr h events =
          handshake_reply local_nonce peer_addr h events >>= λ u met rest.
          height_query 8 peer_addr met rest >>= λ s heard later.
          catch_up now peer_addr s heard later

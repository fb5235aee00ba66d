-- ===== src/P2p/Sync/Fetch/Books.antt =====
-- The ledger over a whole conversation, whatever the peer sends.
use vision_core.Prelude.{ℕ, zero, suc, List, [], ◌∷◌, All, arith, Result, ok, err}
use vision_core.Prelude.Text.{Text}
use vision_core.Prelude.Map.{Map, insert}
use vision_core.Types.{Block}
use vision_core.External.{External}
use vision_core.Store.{Sled}
use vision_core.Chain.{VisionX}
use vision_core.Chain.Accept.{RejectReason}
use vision_core.P2p.Protocol.{ChainSummary}
use vision_core.P2p.Sync.Host.{Host, Event, Schedule}
use vision_core.P2p.Sync.Import.Ledger.{KeepsBooks, IsFair, import_fetched_blocks-HasLedger}
use vision_core.P2p.Peers.{note_peer_summary}
use vision_core.P2p.Sync.Fetch
use vision_core.P2p.Sync.Fetch.{◌>>=◌}

module _ {Db : Type 0} ⦃ext : External⦄ where
  -- What the other tasks do during a wait keeps the ledger.
  abbrev pub IsFairEvent : Event Db → Type 0
  IsFairEvent e = (h : Host Db) → KeepsBooks h → KeepsBooks (e.others h)

  -- Wherever the conversation stands, the host has its ledger.
  abbrev pub Kept {ℓ} : {A : Type ℓ} → Fetch.Talk Db A → Type 0
  Kept (Fetch.waiting h) = KeepsBooks h
  Kept (Fetch.failed h e) = KeepsBooks h
  Kept (Fetch.reached a h rest) = KeepsBooks h × All IsFairEvent rest

  height_query-Kept :
      (limit : ℕ) (peer : Text) (h : Host Db) (events : List (Event Db))
      → All IsFairEvent events
      → KeepsBooks h
      → Kept (Fetch.height_query limit peer h events)
  unfolding Fetch.height_query
  height_query-Kept zero peer h events f p = p
  height_query-Kept (suc limit) peer h [] f p = p
  height_query-Kept (suc limit) peer h (e ∷ events) (fe, f) p =
      let rest = height_query-Kept limit peer (e.others h) events f (fe h p) in
      ground (arith, rest, fe h p)

  await_block-Kept :
      (current : Text) (fetched : List Block) (seen : Map (Unit {0})) (h : Host Db)
      (events : List (Event Db))
      → All IsFairEvent events
      → KeepsBooks h
      → Kept (Fetch.await_block current fetched seen h events)
  unfolding Fetch.await_block
  await_block-Kept current fetched seen h [] f p = p
  await_block-Kept current fetched seen h (e ∷ events) (fe, f) p =
      let ignored = await_block-Kept current fetched seen (e.others h) events f (fe h p) in
      let asked = λ (b : Block).
        await_block-Kept b.header.parent_hash (b ∷ fetched) (insert b.header.parent_hash tt seen)
          (e.others h) events f (fe h p) in
      grind (arith, ignored, asked, fe h p)

  fetch_branch-Kept :
      (tip : Text) (h : Host Db) (events : List (Event Db))
      → All IsFairEvent events
      → KeepsBooks h
      → Kept (Fetch.fetch_branch tip h events)
  unfolding Fetch.fetch_branch
  fetch_branch-Kept tip h events f p =
      let asked = await_block-Kept tip [] (insert tip tt []) h events f p in ground (arith, asked)

  handshake_reply-Kept :
      (nonce : ℕ) (peer : Text) (h : Host Db) (events : List (Event Db))
      → All IsFairEvent events
      → KeepsBooks h
      → Kept (Fetch.handshake_reply nonce peer h events)
  unfolding Fetch.handshake_reply
  handshake_reply-Kept nonce peer h [] f p = p
  handshake_reply-Kept nonce peer h (e ∷ events) (fe, f) p = ground (arith, fe h p)

  >>=-Kept :
      {A B : Type 0} (t : Fetch.Talk Db A) (next : A → Host Db → List (Event Db) → Fetch.Talk Db B)
      → ((a : A) (h : Host Db) (rest : List (Event Db))
          → All IsFairEvent rest
          → KeepsBooks h
          → Kept (next a h rest))
      → Kept t
      → Kept (t >>= next)
  >>=-Kept (Fetch.waiting h) next k p = p
  >>=-Kept (Fetch.failed h e) next k p = p
  >>=-Kept (Fetch.reached a h rest) next k p = k a h rest p.1 p.0

  module _ ⦃sled : Sled Db⦄ ⦃pow : VisionX⦄ (describe : RejectReason → Text)
      (schedule : Schedule Db) (fair : IsFair schedule) where
    fetched-Kept :
        (peer : Text) (t : Fetch.Talk Db (List Block))
        → Kept t
        → Kept (Fetch.import_branch describe schedule peer t)
    unfolding Fetch.import_branch
    fetched-Kept peer (Fetch.waiting h) p = p
    fetched-Kept peer (Fetch.failed h e) p = p
    fetched-Kept peer (Fetch.reached fetched h rest) p =
        let kept = import_fetched_blocks-HasLedger describe schedule fair 0 peer fetched 0 h p.0 in
        ground (arith, kept)

    catch_up-Kept :
        (now : ℕ) (peer : Text) (s : ChainSummary) (h : Host Db) (events : List (Event Db))
        → All IsFairEvent events
        → KeepsBooks h
        → Kept (Fetch.catch_up describe schedule now peer s h events)
    unfolding Fetch.catch_up
    catch_up-Kept now peer s h events f p =
        let noted = record h { peers = note_peer_summary now h.peers peer s } in
        let branch = λ (tip : Text).
          fetched-Kept peer (Fetch.fetch_branch tip noted events)
            (fetch_branch-Kept tip noted events f p) in
        grind (arith, branch)

    -- A whole conversation with a peer keeps the ledger, wherever it stands or ends: for other tasks
    -- that keep it during each wait and at each lock of the import.
    pub live_sync_from_peer-Kept :
        (now : ℕ) (opened : Result (Unit {0}) Text) (nonce : ℕ) (peer : Text) (h : Host Db)
        (events : List (Event Db))
        → All IsFairEvent events
        → KeepsBooks h
        → Kept (Fetch.live_sync_from_peer describe schedule now opened nonce peer h events)
    unfolding Fetch.live_sync_from_peer
    live_sync_from_peer-Kept now (err e) nonce peer h events f p = p
    live_sync_from_peer-Kept now (ok opened) nonce peer h events f p =
        >>=-Kept (Fetch.handshake_reply nonce peer h events) _
          (λ u met rest g q.
            >>=-Kept (Fetch.height_query 8 peer met rest) _
              (λ s heard later g' q'. catch_up-Kept now peer s heard later g' q')
              (height_query-Kept 8 peer met rest g q))
          (handshake_reply-Kept nonce peer h events f p)

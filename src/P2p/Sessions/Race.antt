-- ===== src/P2p/Sessions/Race.antt =====
-- Two registrations of one peer whose counters and locks interleave in p2p/connection.rs.
use vision_core.Prelude.{
  ℕ, ◌+◌, ◌%◌, ◌≡◌, ◌<◌, refl, ◌∙◌, ap, true, false, Option, none, some, List, [], ◌∷◌, ◌++◌, ◌==◌,
  arith,
}
use vision_core.Prelude.Text.{Text, text_eq_refl}
use vision_core.Prelude.Bytes.{u64_mod}
use vision_core.Prelude.Map.{get, insert}
use vision_core.Prelude.Map.Laws.{get-insert, get-remove}
use vision_core.P2p.Peers.{Peer, PeerManager, connected, connect_session, disconnect_if_generation}
use vision_core.P2p.Sessions.{
  PeerSessionRegistry, PeerSessions, SessionSender, take_generation, add_session, sessions_at,
  open_session,
}
use vision_core.P2p.Sessions.Lifecycle.{Net, close_on, get-update}
use vision_core.P2p.Sessions.Lifecycle.Opens.{joined}
use vision_core.P2p.Sessions.Lifecycle.Closing.{stays, kept, unregister-stays, unregister-ends}

-- Both threads take a generation; the one with the later generation gets the lock first.
unfoldable pub open_both : Net → Text → Net
unfolding take_generation add_session connect_session
open_both net addr =
    let (once, earlier) = take_generation net.registry in
    let (twice, later) = take_generation once in
    record {
      registry = add_session (add_session twice addr later) addr earlier;
      peers = connect_session (connect_session net.peers addr later) addr earlier;
    }

of_option : Option PeerSessions → List SessionSender
of_option none = []
of_option (some s) = s.active

sessions_at-get :
    (r : PeerSessionRegistry) (addr : Text) (o : Option PeerSessions)
    → get addr r.sessions ≡ o
    → sessions_at r addr ≡ of_option o
unfolding of_option
sessions_at-get r addr none e = rw (e, sessions_at) refl
sessions_at-get r addr (some s) e = rw (e, sessions_at) refl

-- The entry of a peer after one more session.
get-add_session :
    (r : PeerSessionRegistry) (addr : Text) (generation : ℕ) (o : Option PeerSessions)
    → get addr r.sessions ≡ o
    → get addr (add_session r addr generation).sessions
      ≡ some (record {
        latest_generation = generation;
        active = of_option o ++ open_session generation ∷ [];
      })
unfolding add_session
get-add_session r addr generation o e =
    get-insert addr addr _ r.sessions
    ∙ rw (text_eq_refl addr) (rw (sessions_at-get r addr o e) refl)

get-connect_session :
    (m : PeerManager) (addr : Text) (generation : ℕ) (p : Peer)
    → get addr m ≡ some p
    → get addr (connect_session m addr generation) ≡ some (joined generation p)
unfolding connect_session
get-connect_session m addr generation p e =
    get-update (joined generation) addr addr p m e ∙ rw (text_eq_refl addr) refl

module _ (net : Net) (addr : Text) (p : Peer) (known : get addr net.peers ≡ some p)
    (unlisted : get addr net.registry.sessions ≡ none)
    (below : p.connection_generation < net.registry.next_generation)
    (room : net.registry.next_generation + 2 < u64_mod) where
  abbrev n : ℕ
  n = net.registry.next_generation

  second : (n + 1) % u64_mod ≡ n + 1
  second = omega (arith, room)

  -- The registry after both counters.
  abbrev counted : PeerSessionRegistry
  counted = record net.registry { next_generation = ((n + 1) % u64_mod + 1) % u64_mod }

  -- The entry after both registrations: its newest generation is not the greatest.
  abbrev listed : PeerSessions
  listed = record { latest_generation = n; active = open_session (n + 1) ∷ open_session n ∷ [] }

  both-sessions : get addr (open_both net addr).registry.sessions ≡ some listed
  unfolding open_both take_generation of_option
  both-sessions =
      get-add_session (add_session counted addr ((n + 1) % u64_mod)) addr n _
        (get-add_session counted addr ((n + 1) % u64_mod) none unlisted)
      ∙ ap
          (λ g.
            some (record { latest_generation = n; active = open_session g ∷ open_session n ∷ [] }))
          second

  both-peers : get addr (open_both net addr).peers ≡ some (joined n (joined (n + 1) p))
  unfolding open_both take_generation
  both-peers = get-connect_session _ addr n _ (
      get-connect_session net.peers addr ((n + 1) % u64_mod) p known
      ∙ ap (λ g. some (joined g p)) second)

  -- The first thread's session ends, and the other's stays.
  abbrev once : Net
  once = close_on (open_both net addr) addr n

  first_stays : stays listed n ≡ true
  first_stays = ground arith

  first_kept : kept listed n ≡ open_session (n + 1) ∷ []
  first_kept = ground arith

  abbrev left : PeerSessions
  left = record listed { active = kept listed n }

  last_ends : stays left (n + 1) ≡ false
  last_ends = ground arith

  once_lem : once ≡ record (open_both net addr) {
    registry = record (open_both net addr).registry {
      sessions = insert addr left (open_both net addr).registry.sessions;
    };
  }
  unfolding close_on
  once_lem =
      rw (unregister-stays (open_both net addr).registry addr n listed both-sessions first_stays)
        refl

  once-sessions : get addr once.registry.sessions ≡ some left
  once-sessions =
      ap (λ x. get addr x.registry.sessions) once_lem
      ∙ get-insert addr addr left (open_both net addr).registry.sessions
      ∙ rw (text_eq_refl addr) refl

  once-peers : get addr once.peers ≡ some (joined n (joined (n + 1) p))
  once-peers = ap (λ x. get addr x.peers) once_lem ∙ both-peers

  refused : (disconnect_if_generation once.peers addr n).0 ≡ once.peers
  unfolding disconnect_if_generation
  refused =
      let other : ((joined n (joined (n + 1) p)).connection_generation == n) ≡ false =
        ground (arith, below) in
      rw (once-peers, disconnect_if_generation) (rw other refl)

  -- When two registrations of a known peer take their generations in one order and the lock in the
  -- other, and both sessions then end, the peer has no session left and stays connected.
  pub interleaved_registers_keep_connected :
      (get addr (close_on once addr (n + 1)).registry.sessions ≡ none)
      × ((q : Peer) × (get addr (close_on once addr (n + 1)).peers ≡ some q)
          × (q.state ≡ connected))
  unfolding close_on
  interleaved_registers_keep_connected =
      let ends = unregister-ends once.registry addr (n + 1) left once-sessions last_ends in
      (
        rw ends (get-remove addr addr once.registry.sessions ∙ rw (text_eq_refl addr) refl),
        (joined n (joined (n + 1) p), rw ends (ap (get addr) refused ∙ once-peers), refl),
      )

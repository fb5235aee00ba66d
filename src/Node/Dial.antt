-- ===== src/Node/Dial.antt =====
-- node/services.rs: `peer_dial_supervisor`, which starts a loop for each peer to dial. It reads the
-- candidates in turn; the loops that it starts are the list of their addresses.
pub mod Limits
use vision_core.Prelude.{
  ℕ, ◌+◌, Bool, true, false, Option, List, [], ◌∷◌, ◌++◌, any, length, ltb, if◌then◌else◌, Result,
  ok, err,
}
use vision_core.Prelude.Text.{Text, text_eq}
use vision_core.P2p.Peers.{PeerManager, upsert}
use vision_core.P2p.Peers.Dial.{SocketAddr, validate_dial_address}

abbrev pub target_outbound_peers : ℕ
target_outbound_peers = 8

-- The set of addresses scheduled, the table of peers, and the addresses whose loops were started.
pub record Supervisor : Type 0 where
  pub scheduled : List Text
  pub peers : PeerManager
  pub started : List Text

module _ (parse_socket : Text → Option SocketAddr) (print_socket : SocketAddr → Text)
    (is_local : SocketAddr → Bool) (allow_private : Bool) where
  -- A fresh address joins the set, and leaves it again where the set is then too large.
  unfoldable pub schedule : Supervisor → Text → Supervisor
  unfolding upsert
  schedule s peer_addr =
      if any (text_eq peer_addr) s.scheduled
      then s
      else if ltb target_outbound_peers (length s.scheduled + 1)
      then s
      else record {
        scheduled = s.scheduled ++ peer_addr ∷ [];
        peers = upsert s.peers peer_addr true;
        started = s.started ++ peer_addr ∷ [];
      }

  unfoldable pub supervise : Supervisor → Text → Supervisor
  unfolding validate_dial_address schedule
  supervise s candidate = elim (validate_dial_address parse_socket candidate allow_private) [
    | err e ↦ s
    | ok peer_socket ↦ if is_local peer_socket then s else schedule s (print_socket peer_socket)
  ]

  -- The loop, from an empty set.
  unfoldable pub supervise_all : Supervisor → List Text → Supervisor
  unfolding supervise
  supervise_all s [] = s
  supervise_all s (c ∷ cs) = supervise_all (supervise s c) cs

  unfoldable pub peer_dial_supervisor : PeerManager → List Text → Supervisor
  unfolding supervise_all
  peer_dial_supervisor peers candidates =
      supervise_all (record { scheduled = []; peers = peers; started = [] }) candidates

-- ===== src/P2p/Peers/Dial.antt =====
-- p2p/peer_manager.rs and p2p/connection.rs: the check of an address to dial, and whether it is the
-- node's own. The standard library's parsers of addresses are parameters.
use vision_core.Prelude.{
  ℕ, Bool, true, false, not, ◌&&◌, ◌||◌, Option, none, some, List, [], ◌∷◌, ◌==◌, if◌then◌else◌,
  Result, ok, err,
}
use vision_core.Prelude.Text.{Text}
use vision_core.P2p.Peers.Inbound.{IpAddr, v4, v6, is_private_like_ip}

pub record SocketAddr : Type 0 where
  pub ip : IpAddr
  pub port : ℕ

pub data DialError : Type 0 where
  invalid_address port_zero private_address : DialError

abbrev pub segments_eq : List ℕ → List ℕ → Bool
segments_eq [] [] = true
segments_eq (s ∷ ss) (t ∷ ts) = let rest = segments_eq ss ts in if s == t then rest else false
segments_eq _ _ = false

-- `==` of addresses
unfoldable pub ip_eq : IpAddr → IpAddr → Bool
ip_eq (v4 a b c d) (v4 a' b' c' d') = a == a' && b == b' && c == c' && d == d'
ip_eq (v6 ss) (v6 ts) = segments_eq ss ts
ip_eq _ _ = false

unfoldable pub socket_eq : SocketAddr → SocketAddr → Bool
unfolding ip_eq
socket_eq a b = ip_eq a.ip b.ip && a.port == b.port

abbrev pub ends_in : ℕ → List ℕ → Bool
ends_in last [] = false
ends_in last (s ∷ []) = s == last
ends_in last (s ∷ t ∷ ts) = let rest = ends_in last (t ∷ ts) in if s == 0 then rest else false

-- `is_loopback` and `is_unspecified` of the standard library
abbrev pub is_loopback : IpAddr → Bool
is_loopback (v4 a b c d) = a == 127
is_loopback (v6 segments) = ends_in 1 segments

abbrev pub is_unspecified : IpAddr → Bool
is_unspecified (v4 a b c d) = a == 0 && b == 0 && c == 0 && d == 0
is_unspecified (v6 segments) = ends_in 0 segments

module _ (parse_socket : Text → Option SocketAddr) where
  unfoldable pub validate_dial_address : Text → Bool → Result SocketAddr DialError
  unfolding is_private_like_ip
  validate_dial_address value allow_private = elim (parse_socket value) [
    | none ↦ err invalid_address
    | some addr ↦
        if addr.port == 0
        then err port_zero
        else if not allow_private && is_private_like_ip addr.ip
        then err private_address
        else ok addr
  ]

module _ (parse_ip : Text → Option IpAddr) where
  -- The advertised host and port are this address.
  abbrev pub is_advertised : Option Text → Option ℕ → SocketAddr → Bool
  is_advertised (some host) (some port) addr = elim (parse_ip host) [
    | none ↦ false
    | some ip ↦ port == addr.port && ip_eq ip addr.ip
  ]
  is_advertised _ _ addr = false

  unfoldable pub is_local_dial_address : SocketAddr → Option Text → Option ℕ → SocketAddr → Bool
  unfolding socket_eq ip_eq
  is_local_dial_address listen_addr advertised_ip advertised_port addr =
      socket_eq addr listen_addr
      || (is_unspecified listen_addr.ip && addr.port == listen_addr.port && is_loopback addr.ip)
      || is_advertised advertised_ip advertised_port addr

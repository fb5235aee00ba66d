-- ===== src/P2p/Peers/Inbound.antt =====
-- p2p/peer_manager.rs: the durable address of an inbound peer. The standard library's parser of IP
-- addresses and its Unicode `trim` are parameters.
use vision_core.Prelude.{
  ℕ, ◌+◌, ◌/◌, Bool, false, not, ◌&&◌, ◌||◌, Option, none, some, List, [], ◌∷◌, ◌++◌, any, all, map,
  leb, ◌==◌, if◌then◌else◌, unwrap_or, head?, Result, ok, err, ◌>>=◌,
}
use vision_core.Prelude.Text.{Text, text, text_eq}
use vision_core.Store.Decimal.{decimal}
use vision_core.P2p.Protocol.{HandshakeMessage}
use vision_core.P2p.Peers.{Peer, PeerManager, entry, new}

-- An address by its four octets, or by its eight segments.
pub data IpAddr : Type 0 where
  v4 : (a b c d : ℕ) → IpAddr
  v6 : (segments : List ℕ) → IpAddr

-- `is_loopback`, `is_private`, `is_link_local` and `is_unspecified` of the standard library
unfoldable pub is_private_v4 : ℕ → ℕ → ℕ → ℕ → Bool
is_private_v4 a b c d =
    a == 127
    || (a == 10 || (a == 172 && leb 16 b && leb b 31) || (a == 192 && b == 168))
    || (a == 169 && b == 254)
    || (a == 0 && b == 0 && c == 0 && d == 0)

-- All but the last segment are zero, and that one is at most 1.
abbrev pub is_loopback_or_unspecified_v6 : List ℕ → Bool
is_loopback_or_unspecified_v6 [] = false
is_loopback_or_unspecified_v6 (s ∷ []) = leb s 1
is_loopback_or_unspecified_v6 (s ∷ t ∷ ts) =
    let rest = is_loopback_or_unspecified_v6 (t ∷ ts) in if s == 0 then rest else false

-- `(first & 0xfe00) == 0xfc00` and `(first & 0xffc0) == 0xfe80` at 16 bits
unfoldable pub is_private_like_ip : IpAddr → Bool
unfolding is_private_v4
is_private_like_ip (v4 a b c d) = is_private_v4 a b c d
is_private_like_ip (v6 segments) =
    let first = unwrap_or (head? segments) 0 in
    is_loopback_or_unspecified_v6 segments || first / 512 == 126 || first / 64 == 1018

abbrev pub is_host_byte : ℕ → Bool
is_host_byte b =
    (leb b'a' b && leb b b'z')
    || (leb b'A' b && leb b b'Z')
    || (leb b'0' b && leb b b'9')
    || b == b'.'
    || b == b'-'

abbrev pub to_ascii_lowercase : Text → Text
to_ascii_lowercase = map (λ b. if leb b'A' b && leb b b'Z' then b + 32 else b)

-- What an inbound connection does to its peer.
abbrev pub observe : Text → Text → Peer → Peer
observe durable_addr observed_addr p =
    let seen = record p { observed_addr = some observed_addr } in
    if text_eq durable_addr observed_addr
    then seen
    else record seen { advertised_addr = some durable_addr }

module _ (parse_ip : Text → Option IpAddr) (trim : Text → Text) where
  -- The checks on a host and a port that are both given.
  unfoldable pub checked_host : Text → ℕ → Bool → Result Text Text
  unfolding is_private_like_ip
  checked_host host port allow_private =
      if text_eq host [] || port == 0
      then err (text "malformed advertised address")
      else elim (parse_ip host) [
        | some ip ↦
            if not allow_private && is_private_like_ip ip
            then err (text "private advertised address not allowed")
            else ok (to_ascii_lowercase host ++ b':' ∷ decimal port)
        | none ↦
            if any (λ b. b == b':') host || not (all is_host_byte host)
            then err (text "malformed advertised host")
            else ok (to_ascii_lowercase host ++ b':' ∷ decimal port)
      ]

  unfoldable pub validated_advertised_addr :
      Option Text → Option ℕ → Bool → Result (Option Text) Text
  unfolding checked_host
  validated_advertised_addr (some host) (some port) allow_private = do
    addr ← checked_host (trim host) port allow_private
    ok (some addr)
  validated_advertised_addr _ _ allow_private = ok none

  unfoldable pub resolve_inbound_peer_key :
      PeerManager → Text → HandshakeMessage → Bool → PeerManager × Result Text Text
  unfolding validated_advertised_addr entry new
  resolve_inbound_peer_key peers observed_addr hs allow_private =
      elim (validated_advertised_addr hs.advertised_ip hs.advertised_port allow_private) [
        | err e ↦ (peers, err e)
        | ok advertised ↦
            let durable_addr = unwrap_or advertised observed_addr in
            let change = observe durable_addr observed_addr in
            (entry change (change (new durable_addr false)) durable_addr peers, ok durable_addr)
      ]

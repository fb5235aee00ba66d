-- ===== src/P2p/Protocol.antt =====
-- p2p/protocol.rs and p2p/messages.rs: chain summaries, the handshake and its validation, and the
-- messages. The fingerprint of the proof-of-work parameters is that of pow/visionx.rs.
use vision_core.Prelude.{
  ℕ, Bool, true, false, not, Option, none, some, List, [], ◌∷◌, ◌++◌, ◌==◌, if◌then◌else◌,
  unwrap_or,
}
use vision_core.Prelude.Text.{Text, text, text_eq}
use vision_core.Prelude.Bytes.{Bytes}
use vision_core.Prelude.Map.{get}
use vision_core.Types.{Block}
use vision_core.External.{External}
use vision_core.Genesis.{econ_hash}
use vision_core.Store.Decimal.{decimal}
use vision_core.Visionx.Params.{visionx_params, fingerprint}
use vision_core.Chain.{ChainState, current_height, tip_hash}
use vision_core.Chain.Accept.{genesis_hash}

abbrev pub protocol_version : ℕ
protocol_version = 4

abbrev pub consensus_version : ℕ
consensus_version = 3

abbrev pub network_id : Text
network_id = text "mainnet"

-- The package's version.
abbrev pub node_version : Text
node_version = text "v1.0.4"

pub record ChainSummary : Type 0 where
  pub height : ℕ
  pub tip_hash : Option Text
  pub cumulative_work : ℕ

pub record HandshakeMessage : Type 0 where
  pub protocol_version : ℕ
  pub chain_id : Bytes
  pub genesis_hash : Text
  pub node_nonce : ℕ
  pub chain_height : ℕ
  pub network_id : Text
  pub node_tag : Text
  pub econ_hash : Text
  pub pow_params_hash : Text
  pub advertised_ip : Option Text
  pub advertised_port : Option ℕ
  pub seed_peers : List Text

pub data HandshakeResult : Type 0 where
  accepted : HandshakeResult
  version_mismatch : (remote ours : ℕ) → HandshakeResult
  wrong_chain_id wrong_genesis_hash wrong_econ_hash wrong_pow_params : HandshakeResult
  self_connection : HandshakeResult

pub record AnnounceBlock : Type 0 where
  pub height : ℕ
  pub hash : Text
  pub prev : Text

pub data P2PMessage : Type 0 where
  handshake : HandshakeMessage → P2PMessage
  ping : (timestamp : ℕ) → P2PMessage
  pong : (timestamp : ℕ) → P2PMessage
  get_height : P2PMessage
  height_is : (summary : ChainSummary) → P2PMessage
  announce_block : AnnounceBlock → P2PMessage
  get_block : (h : Text) → P2PMessage
  block_body : Block → P2PMessage
  disconnect : (reason : Text) → P2PMessage

unfoldable pub label : P2PMessage → Text
label (handshake h) = text "Handshake"
label (ping t) = text "Ping"
label (pong t) = text "Pong"
label get_height = text "GetHeight"
label (height_is s) = text "Height"
label (announce_block a) = text "AnnounceBlock"
label (get_block h) = text "GetBlock"
label (block_body b) = text "Block"
label (disconnect r) = text "Disconnect"

unfoldable pub is_pre_handshake : P2PMessage → Bool
is_pre_handshake (handshake h) = true
is_pre_handshake (disconnect r) = true
is_pre_handshake _ = false

module _ {Db : Type 0} where
  -- `ChainSummary::from_chain`
  unfoldable pub from_chain : ChainState Db → ChainSummary
  from_chain g =
      let tip : Option Text = elim g.blocks [ [] ↦ none | b ∷ bs ↦ some (tip_hash g) ] in
      record {
        height = current_height g;
        tip_hash = tip;
        cumulative_work = elim tip [ none ↦ 0 | some h ↦ unwrap_or (get h g.cumulative_work) 0 ];
      }

module _ ⦃ext : External⦄ where
  unfoldable pub expected_chain_id : Bytes
  expected_chain_id = ext.blake3 (genesis_hash ++ network_id)

  -- `HandshakeMessage::new`
  unfoldable pub new : ℕ → ℕ → HandshakeMessage
  unfolding expected_chain_id fingerprint
  new chain_height node_nonce = record {
    protocol_version = protocol_version;
    chain_id = expected_chain_id;
    genesis_hash = genesis_hash;
    node_nonce = node_nonce;
    chain_height = chain_height;
    network_id = network_id;
    node_tag = node_version ++ text "-consensus-v1.0." ++ decimal consensus_version;
    econ_hash = econ_hash;
    pow_params_hash = fingerprint visionx_params;
    advertised_ip = none;
    advertised_port = none;
    seed_peers = [];
  }

  unfoldable pub new_with_advertised : ℕ → ℕ → Option Text → Option ℕ → HandshakeMessage
  unfolding new
  new_with_advertised chain_height node_nonce advertised_ip advertised_port =
      record (new chain_height node_nonce) {
        advertised_ip = advertised_ip;
        advertised_port = advertised_port;
      }

  unfoldable pub validate_handshake : HandshakeMessage → ℕ → HandshakeResult
  unfolding expected_chain_id fingerprint
  validate_handshake remote our_nonce =
      if remote.node_nonce == our_nonce
      then self_connection
      else if not (remote.protocol_version == protocol_version)
      then version_mismatch remote.protocol_version protocol_version
      else if not (text_eq remote.chain_id expected_chain_id)
      then wrong_chain_id
      else if not (text_eq remote.genesis_hash genesis_hash)
      then wrong_genesis_hash
      else if not (text_eq remote.econ_hash econ_hash)
      then wrong_econ_hash
      else if not (text_eq remote.pow_params_hash (fingerprint visionx_params))
      then wrong_pow_params
      else accepted

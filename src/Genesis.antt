-- ===== src/Genesis.antt =====
-- genesis/genesis.rs: the fixed block and economics, and the checks against their hashes.
-- `genesis_hash` is declared with block acceptance.
use vision_core.Prelude.{ℕ, List, [], ◌∷◌, ◌++◌, replicate, Result, ensure}
use vision_core.Prelude.Text.{Text, text, text_eq}
use vision_core.Prelude.Bytes.{Bytes, to_le_bytes}
use vision_core.Prelude.Map.{Map}
use vision_core.Types.{Block}
use vision_core.External.{External}
use vision_core.Block.{compute_hash}
use vision_core.Difficulty.{difficulty_floor}
use vision_core.Chain.Accept.{genesis_hash}

abbrev pub econ_hash : Text
econ_hash = text "a18f9f82aeb6276b5cfb353e351cd0cf9b34aad962e29f4ac6268f0659c55f95"

-- An address and its share in basis points.
abbrev pub vault_accounts : List (Text × ℕ)
vault_accounts =
    (text "0xb977c16e539670ddfecc0ac902fcb916ec4b944e", 5000)
    ∷ (text "0x8bb8edcd4cdbcb132cc5e88ff90ba48cebf11cbd", 3000)
    ∷ (text "0xdf7a79291bb96e9dd1c77da089933767999eabf0", 1000)
    ∷ (text "0x083f95edd48e3e9da396891b704994b86e7790e7", 1000)
    ∷ []

unfoldable pub genesis_block : Block
genesis_block =
    let null_hash = replicate 64 b'0' in
    record {
      header = record {
        parent_hash = null_hash;
        number = 0;
        timestamp = 0;
        difficulty = difficulty_floor;
        nonce = 0;
        pow_hash = genesis_hash;
        state_root = null_hash;
        tx_root = null_hash;
        miner = text "network_genesis";
      };
      txs = [];
      weight = 0;
    }

abbrev pub genesis_balances : Map ℕ
genesis_balances = []

-- The first pass of `compute_econ_hash`: the addresses.
unfoldable pub vault_addresses : List (Text × ℕ) → Bytes
vault_addresses [] = []
vault_addresses ((addr, bps) ∷ vaults) = addr ++ vault_addresses vaults

-- The second pass: the shares.
unfoldable pub vault_shares : List (Text × ℕ) → Bytes
unfolding to_le_bytes
vault_shares [] = []
vault_shares ((addr, bps) ∷ vaults) = to_le_bytes 4 bps ++ vault_shares vaults

unfoldable pub verify_stored_genesis : Text → Result (Unit {0}) Text
verify_stored_genesis stored = ensure (text_eq stored genesis_hash) (text "Stored genesis mismatch")

unfoldable pub verify_peer_genesis : Text → Result (Unit {0}) Text
verify_peer_genesis peer_genesis =
    ensure (text_eq peer_genesis genesis_hash) (text "Peer genesis mismatch")

module _ ⦃ext : External⦄ where
  unfoldable pub compute_genesis_pow_hash : Text
  unfolding genesis_block compute_hash
  compute_genesis_pow_hash = compute_hash genesis_block.header

  unfoldable pub compute_econ_hash : Text
  unfolding vault_addresses vault_shares
  compute_econ_hash =
      ext.hex_encode (ext.blake3 (vault_addresses vault_accounts ++ vault_shares vault_accounts))

  unfoldable pub validate_genesis_hash : Result (Unit {0}) Text
  unfolding compute_genesis_pow_hash
  validate_genesis_hash =
      ensure (text_eq compute_genesis_pow_hash genesis_hash) (text "Genesis hash mismatch")

  unfoldable pub validate_econ_hash : Result (Unit {0}) Text
  unfolding compute_econ_hash
  validate_econ_hash = ensure (text_eq compute_econ_hash econ_hash) (text "Econ hash mismatch")

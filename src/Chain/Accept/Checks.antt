-- ===== src/Chain/Accept/Checks.antt =====
-- chain/accept.rs: the results of block acceptance and the checks that need no account state.
use vision_core.Prelude.{
  ℕ, zero, suc, ◌+◌, Bool, true, false, not, ◌&&◌, none, some, List, [], ◌∷◌, ◌==◌, if◌then◌else◌,
  all, head?, length, Result, ok, err, ◌>>=◌, ◌>>◌, ensure, ok_or,
}
use vision_core.Prelude.Text.{Text, text, text_eq}
use vision_core.Prelude.Bytes.{from_be_bytes}
use vision_core.Prelude.Map.{Map, insert, contains_key}
use vision_core.Types.{Tx, Block, hash}
use vision_core.External.{External}
use vision_core.Transaction.{canonical_tx_id}
use vision_core.Difficulty.{difficulty_to_target, upper_le, retarget_window}
use vision_core.Chain.{ChainState, VisionX, block_by_hash}
use vision_core.Chain.Replay.{ReplayError}

abbrev pub block_weight_limit : ℕ
block_weight_limit = 400000

abbrev pub max_future_timestamp_secs : ℕ
max_future_timestamp_secs = 7200

-- genesis.rs
abbrev pub genesis_hash : Text
genesis_hash = text "d6469ec95f56b56be4921ef40b9795902c96f2ad26582ef8db8fac46f4a7aa13"

-- The reasons of `AcceptResult::Rejected`, which the source has as messages. The last one stands for
-- the `expect` on a parent that an index names and no store holds, where the thread panics.
pub data RejectReason : Type 0 where
  weight_exceeds_limit tx_root_mismatch missing_coinbase first_tx_not_coinbase : RejectReason
  duplicate_block genesis_hash_mismatch genesis_already_applied : RejectReason
  persistence_failed : (reason : Text) → RejectReason
  timestamp_not_monotonic timestamp_too_far difficulty_below_floor difficulty_mismatch :
      RejectReason
  pow_digest_failed pow_failed pow_hash_mismatch : RejectReason
  coinbase_args_length coinbase_height_mismatch duplicate_tx : RejectReason
  replay : ReplayError → RejectReason
  panic_parent_absent : RejectReason

pub data AcceptResult : Type 0 where
  canon_extension : (height : ℕ) → AcceptResult
  side_chain : (height : ℕ) → AcceptResult
  stored_orphan : (block_hash : Text) → AcceptResult
  rejected : RejectReason → AcceptResult

abbrev pub is_accepted : AcceptResult → Bool
is_accepted (rejected r) = false
is_accepted _ = true

-- Stage 1c
unfoldable pub check_coinbase : Block → Result (Unit {0}) RejectReason
check_coinbase blk = if blk.header.number == 0 then ok tt else elim (head? blk.txs) [
  | none ↦ err missing_coinbase
  | some cb ↦
      ensure (text_eq cb.module_name (text "coinbase") && text_eq cb.method (text "reward"))
        first_tx_not_coinbase
]

-- Stage 6a
unfoldable pub check_coinbase_height : Block → Result (Unit {0}) RejectReason
check_coinbase_height blk = do
  cb ← ok_or (head? blk.txs) missing_coinbase
  ensure (length cb.args == 8) coinbase_args_length
  ensure (from_be_bytes cb.args == blk.header.number) coinbase_height_mismatch

module _ ⦃ext : External⦄ where
  -- Stage 6b: the loop over the transactions with the ids seen so far.
  unfoldable pub check_unique_ids : Map (Unit {0}) → List Tx → Result (Unit {0}) RejectReason
  check_unique_ids seen [] = ok tt
  check_unique_ids seen (tx ∷ txs) = do
    ensure (not (contains_key (canonical_tx_id tx) seen)) duplicate_tx
    check_unique_ids (insert (canonical_tx_id tx) tt seen) txs

  -- `verify_visionx_pow`
  unfoldable pub verify_visionx_pow : ⦃pow : VisionX⦄ → Block → Result (Unit {0}) RejectReason
  verify_visionx_pow ⦃pow⦄ blk = do
    digest ← ok_or (pow.block_digest (pow.epoch blk.header.number) blk.header) pow_digest_failed
    ensure (upper_le digest (difficulty_to_target blk.header.difficulty)) pow_failed
    ensure (text_eq (hash blk) (ext.hex_encode digest)) pow_hash_mismatch

module _ {Db : Type 0} where
  -- The walk of `collect_ancestor_window`, at most `limit` blocks, oldest first.
  unfoldable pub collect_ancestors : ℕ → ChainState Db → Text → List Block → List Block
  collect_ancestors zero g current chain = chain
  collect_ancestors (suc limit) g current chain = elim (block_by_hash g current) [
    | none ↦ chain
    | some blk ↦ elim (all (λ c. c == b'0') blk.header.parent_hash) [
      | true ↦ blk ∷ chain
      | false ↦ collect_ancestors limit g blk.header.parent_hash (blk ∷ chain)
    ]
  ]

  unfoldable pub collect_ancestor_window : ChainState Db → Text → List Block
  unfolding collect_ancestors
  collect_ancestor_window g tip = collect_ancestors (retarget_window + 1) g tip []

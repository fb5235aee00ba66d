-- ===== src/Lib.antt =====
-- Verification library of Vision Core, a node of a proof-of-work chain.
--
-- The program keeps one chain state. Every block, from peers, from sync or from the local miner,
-- goes through `apply_block` (src/chain/accept.rs): structural checks, parent lookup, timestamp,
-- difficulty and proof of work, execution of its transactions on the state of its parent, then the
-- extension of the tip, a side block or a reorganisation, or the orphan pool. Transactions wait in a
-- bounded mempool, from which the miner takes the next candidate. A watchdog compares the chain with
-- what the table of peers says of theirs, fetches a heavier branch over a stream and imports it block
-- by block; at startup the chain is read back from the store, or rebuilt from the genesis.
--
-- Which file models which part:
--   Types, Block: src/types/block.rs and src/types/header.rs (`Block`, `BlockHeader`,
--     `compute_tx_root`, `canonical_bytes`).
--   Transaction, Transaction/Execute: src/types/transaction.rs. `simulate_tx_execution` returns the
--     state beside its result; its checks are `prepare_transfer` and its writes `commit_transfer`.
--   StateRoot: src/chain/state_root.rs.
--   Difficulty: src/pow/difficulty.rs and the constants of src/config/constants.rs.
--   Mempool, Mempool/Admission, Mempool/Requeue: src/mempool/pool.rs and src/mempool/admission.rs. A
--     method holds the lock for its whole body, so it is a function of the pool.
--   Miner: src/miner/job.rs, and `apply_coinbase_reward` of src/chain/accept.rs.
--   Store: src/chain/storage.rs, the writes. Store/Reads: its reads and metadata, with UTF-8 and
--     `parse::<u64>` of the standard library. Chain/Reload: `load_canon_chain`, `persist_tip` and, of
--     src/chain/state.rs, `open_with_genesis`.
--   Chain: src/chain/state.rs. Chain/Replay: the reconstructions of src/chain/accept.rs and
--     src/chain/reorg.rs. Chain/Orphan: src/chain/orphan.rs. Chain/Reorg: src/chain/reorg.rs.
--     Chain/Snapshot, Chain/Restore: src/chain/snapshots.rs, its
--     writes and `restore_latest_snapshot`.
--   Chain/Accept: the stages of `apply_block`, as `accept_one`, which promotes no orphans.
--   Chain/Apply: `apply_block` and `process_orphans` together, and the cache of verified proofs.
--   Genesis: src/genesis/genesis.rs. Node/Bootstrap: the chain of src/node/bootstrap.rs at startup.
--     Node/Recovery: src/node/recovery.rs.
--   Visionx: src/pow/visionx.rs (Params, Words, Dataset, Hash, Cache, Digest),
--     src/pow/historical_vpow.rs (Message) and src/pow/visionx_miner.rs (Miner).
--     Visionx/Digest/Same: the digest without a cache, as the interface that acceptance takes.
--   P2p/Protocol: src/p2p/protocol.rs and src/p2p/messages.rs. P2p/Peers: src/p2p/peer_manager.rs, with
--     P2p/Peers/Inbound for the key of an inbound peer and P2p/Peers/Select for choices and counts.
--   P2p/Sessions, P2p/Wire: the registry of sessions and the frames of src/p2p/connection.rs;
--     P2p/Sessions/Lifecycle: the registry together with the table of peers.
--   P2p/Sync: the decisions and the guard of src/p2p/sync.rs; P2p/Sync/Fetch: `live_sync_from_peer`,
--     P2p/Sync/Import: `import_fetched_blocks`, P2p/Sync/Watchdog: `watchdog_step`.
--   Miner/Manager: src/miner/manager.rs. Node/Announced and Node/Dial: `import_announced_blocks` and
--     `peer_dial_supervisor` of src/node/services.rs. P2p/Peers/Dial: `validate_dial_address` and
--     `is_local_dial_address`.
--   Chain/Step: acceptance as a step relation, over which the invariants are proved.
--
-- Parameters: blake3, hex, bincode, serde_json and ed25519 are the record `External`; sled is `Sled`,
-- whose writes may fail and then change nothing; bincode at messages is `Wire`; the digest that block
-- acceptance takes is `VisionX`, which `proof_of_work` fills from src/pow/visionx.rs; the wall clock is
-- a number, and an `Instant` a number of nanoseconds. The parse of an IP address and `trim` are
-- arguments, as is the text of a rejection. A stream is the list of the events of its waits, each with
-- the changes that the other tasks make meanwhile; a lock that is taken again likewise has a function
-- for them. Where a theorem needs more of them, it is a hypothesis:
-- `HexDecodeInjective` and `HexDecodeBytes`, which Tests/Host shows of a concrete hex decoder, and
-- `IsStore`, which Tests/Stored shows of a store in memory.
--
-- Numbers are natural numbers with the width written out where the code computes: `checked_add` at 64
-- and 128 bits, `min` for a saturating operation, `% 2 ^ w` for a cast or a sum that may wrap. A
-- B-tree map is a key-ordered list of entries; what needs the order says so by `IsSorted`.
--
-- Fuel: `process_orphans` takes fuel for the depth of its mutual recursion with `apply_block`, and
-- `apply_block` gives one more than the number of waiting orphans. `walk_back` takes fuel for the
-- side blocks on the way to the canonical ancestor, and gets the first one's timestamp plus two. Both
-- are shown to be enough. The eviction from the cache of datasets gets the square of two more than the
-- length of its queue, and the doubling of a size the size itself; both are shown to be enough. Other
-- loops recur on their lists, on counts, or on the events of a stream.
--
-- Not modelled: the HTTP interface, the loop of an inbound connection, the sessions with seed peers, the
-- file of peers, settings, and the threads of the miner, which are input and output around these parts.
-- Log lines, diagnostics and what is sent to peers are left out; the messages of refusals are
-- constructors or shortened, but for the errors of synchronisation, which the code reads.
pub mod Prelude
pub mod Types
pub mod External
pub mod Transaction
pub mod Block
pub mod StateRoot
pub mod Difficulty
pub mod Mempool
pub mod Miner
pub mod Store
pub mod Chain
pub mod Genesis
pub mod Visionx
pub mod P2p
pub mod Node
pub mod Tests

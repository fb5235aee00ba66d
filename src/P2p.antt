-- ===== src/P2p.antt =====
-- src/p2p: the messages between nodes, the table of peers, the sessions, and the synchronisation.
pub mod Protocol
pub mod Peers
pub mod Sessions
pub mod Wire
pub mod Sync

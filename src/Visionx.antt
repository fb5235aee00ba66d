-- ===== src/Visionx.antt =====
-- src/pow/visionx.rs and src/pow/historical_vpow.rs: the proof of work.
pub mod Params
pub mod Words
pub mod Dataset
pub mod Hash
pub mod Message
pub mod Cache
pub mod Digest
pub mod Miner

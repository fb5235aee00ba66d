-- ===== src/Tests.antt =====
-- Runs of the code on concrete data, with concrete functions in place of the third-party code.
pub mod Host
pub mod Samples
mod Accounts
mod Pending
mod Work
mod Headers
mod Mining
mod Stored
pub mod Chains
mod Peers
mod Digests
mod Startup

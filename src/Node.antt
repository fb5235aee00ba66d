-- ===== src/Node.antt =====
-- src/node: the startup of the node, its recovery claims, and two of its tasks.
pub mod Bootstrap
pub mod Recovery
pub mod Announced
pub mod Dial

-- ===== src/P2p.antt =====
-- p2p/peer.go: the peers of the node and the messages between them.
pub mod Types
pub mod Peers
pub mod Network
pub mod Steps
pub mod Reached
pub mod Handshake
pub mod Closing
mod Tests

-- ===== src/Peer.antt =====
-- The workers of bee-protocol that read what a peer sends.
pub mod Reader
pub mod Metrics
pub mod Sender
pub mod Worker
pub mod Manager
pub mod Handshaker
mod Tests

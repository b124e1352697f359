-- ===== src/Signing.antt =====
-- bee-signing: what the signatures of a bundle are made over.
pub mod Normalize
mod Tests

-- ===== src/Crypto.antt =====
-- Peer identities, core/crypto.
pub mod KnownPeers
pub mod RelayGuard

-- ===== src/Tunnel.antt =====
-- pkg/tunnel: the encrypted UDP tunnel protocol.
pub mod Protocol
pub mod Stats
pub mod Replay
pub mod Mac
pub mod Handshake
pub mod Fec
pub mod Session
pub mod Legacy
pub mod Signed

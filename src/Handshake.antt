-- ===== src/Handshake.antt =====
-- The Wisp v2 handshake, wisp/v2.go.
pub mod Extensions
pub mod Password
pub mod Session

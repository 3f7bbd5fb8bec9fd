-- ===== src/Connection.antt =====
-- The streams of a connection: the part of wispConnection (wisp/types.go, wisp/wisp-connection.go) that
-- finds them, counts them and deletes them.
pub mod State
pub mod Handlers
pub mod Table
pub mod Updates
pub mod Entries
pub mod Invariant
pub mod Lookup
pub mod Shutdown

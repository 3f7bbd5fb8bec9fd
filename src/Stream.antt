-- ===== src/Stream.antt =====
-- One stream of a connection, between the client and its target. What a goroutine does between two
-- points at which another may run is one operation; `written` holds the bytes that the target has
-- taken.
pub mod State
pub mod Ingress
pub mod Packets
pub mod Invariant
pub mod Safety
pub mod Races
pub mod Turns
pub mod Line
pub mod Arrivals
pub mod Order
pub mod Forgotten

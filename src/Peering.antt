-- ===== src/Peering.antt =====
-- The package peering/.
pub mod Dialer
pub mod Discovery
pub mod Found
pub mod Lifecycle
pub mod Create

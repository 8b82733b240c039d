-- ===== src/Witness.antt =====
-- The theorems at concrete inputs.
pub mod Scheduling
pub mod Interleaving
pub mod Fixtures
pub mod Processor
pub mod Flushing
pub mod Network
pub mod Handling
pub mod Sorting
pub mod Storing
pub mod Scoring
pub mod Streams
pub mod Starting
pub mod Peering
pub mod Commands
pub mod Restarting

-- ===== src/Processor.antt =====
-- The package processor/.
pub mod SeenCounter
pub mod SlotCache
pub mod Topics
pub mod Messages
pub mod State
pub mod Process
pub mod Flush
pub mod Serve
pub mod Threads
pub mod SlotExtractor

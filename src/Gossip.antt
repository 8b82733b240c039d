-- ===== src/Gossip.antt =====
-- The package gossip/.
pub mod Destination
pub mod Handler
pub mod PeerScore
pub mod Pipeline
pub mod Prune
pub mod Subscription
pub mod Service
pub mod Topics

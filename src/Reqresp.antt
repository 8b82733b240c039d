-- ===== src/Reqresp.antt =====
-- The package reqresp/.
pub mod Stream
pub mod Frames
pub mod Handler
pub mod Serve
pub mod Reliable
pub mod RoundTrip
pub mod Exchange

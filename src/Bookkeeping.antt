-- ===== src/Bookkeeping.antt =====
pub mod Latency
pub mod Mappings
pub mod Peer

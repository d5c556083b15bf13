-- ===== src/Net.antt =====
-- include/net and src/net: the packet buffer, and the scanner of raw frames.
pub mod Buffer
pub mod Frame

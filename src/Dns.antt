-- ===== src/Dns.antt =====
-- include/dns and src/dns: the DNS message.
pub mod Header
pub mod Question
pub mod Record
pub mod Packet

-- ===== src/Tests.antt =====
-- Examples: the theorems at concrete packets, rules and requests, and runs of the code.
pub mod Wire
pub mod Names
pub mod Rules
pub mod Requests
pub mod Replies
pub mod Saved
pub mod Known
pub mod Sequences
pub mod Commands
pub mod Start
pub mod System

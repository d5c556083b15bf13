-- ===== src/Rule.antt =====
-- include/rule and src/rule: the rules and the policy, and what they decide of a request.
pub mod Layout
pub mod Shm
pub mod Evaluate

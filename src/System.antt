-- ===== src/System.antt =====
-- The operating systems' side of the program: src/unix and src/win32.
pub mod Interfaces
pub mod Adapters
pub mod Process
pub mod Registry
pub mod Service

-- ===== src/Paging.antt =====
-- src/paging.rs and src/paging/mapall.rs: the physical frame allocator and what is built on it.
pub mod Levels
pub mod Allocator
pub mod Cover
pub mod Split
pub mod Allocate
pub mod Merge
pub mod Free
pub mod Trim
pub mod Pick
pub mod Init
pub mod Ledger
pub mod Tests

-- ===== src/Boot.antt =====
-- How the parts come up (src/main.rs).
pub mod Early
pub mod Memory
pub mod Screen
pub mod Tasks
pub mod Devices
pub mod Tests
pub mod MemoryTests

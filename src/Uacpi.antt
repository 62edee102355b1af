-- ===== src/Uacpi.antt =====
-- What the kernel provides to the uACPI library (src/uacpi.rs).
pub mod Ports
pub mod Memory
pub mod Locks
pub mod Events
pub mod Services
pub mod Unimplemented
pub mod Tests

-- ===== src/Idt.antt =====
-- The interrupt descriptor table (src/idt.rs).
pub mod Table
pub mod Handlers
pub mod Init
pub mod Wrappers
pub mod Returns
pub mod Called
pub mod ErrorCode
pub mod PageFault
pub mod WrapperTests
pub mod Tests

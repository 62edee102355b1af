-- ===== src/Scheduler.antt =====
-- The scheduler (src/scheduler.rs and src/scheduler/waker.rs).
pub mod Frames
pub mod HandedOver
pub mod Saved
pub mod Records
pub mod Resumed
pub mod Away
pub mod Continued
pub mod RunTests
pub mod ContinuedTests
pub mod State
pub mod Order
pub mod Tests
pub mod TaskIds
pub mod World
pub mod Conserved
pub mod Effects

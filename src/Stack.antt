-- ===== src/Stack.antt =====
-- The kernel stacks (src/stack.rs).
pub mod Manager
pub mod Guards
pub mod Apart
pub mod Guarded
pub mod Tests

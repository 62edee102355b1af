-- ===== src/Util.antt =====
-- The bit ranges that the macros of src/util.rs read and write.
pub mod Masks
pub mod BitRange
pub mod Tests

-- ===== src/Madt.antt =====
-- The entries of the MADT (src/acpi/madt.rs).
pub mod Entries
pub mod Scan
pub mod Layout
pub mod Fields
pub mod Written
pub mod Misread
pub mod WrittenTests

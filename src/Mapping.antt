-- ===== src/Mapping.antt =====
-- Mapping memory (src/paging/mapall.rs) and the parts that map a region at boot.
pub mod Region
pub mod Clients
pub mod Devices
pub mod Pages
pub mod Registers
pub mod DeviceTests
pub mod Tests

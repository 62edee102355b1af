-- ===== src/Hdint.antt =====
-- The interrupt controllers and the timers (src/hdint.rs, src/hdint/).
pub mod Devices
pub mod IoApic
pub mod EntryFields
pub mod Redirection
pub mod Override
pub mod PitInput
pub mod Pit
pub mod Sleep
pub mod LocalApic
pub mod HpetFields
pub mod Hpet
pub mod HpetTimers
pub mod Periodic
pub mod PeriodicTests
pub mod Setup
pub mod Tests

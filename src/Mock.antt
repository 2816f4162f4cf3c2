-- ===== src/Mock.antt =====
-- The mock data source (ec/test-lib/src/mock.rs), which simulates a platform in memory.
pub mod Random
pub mod Battery
pub mod Ramp
pub mod Alarm
pub mod Device
pub mod Tests

-- ===== src/Recovery.antt =====
-- Reading a boot partition over NVMe, the RAM disk behind it, and the walk over a device path
-- (uefi/crates/patina_sre/src/bp_recovery.rs).
pub mod Nvme
pub mod Disk
pub mod DevicePath
pub mod Tests

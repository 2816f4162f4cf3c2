-- ===== src/Sre.antt =====
-- The SRE boot manager (uefi/crates/patina_sre/src): its configuration, the hotkey, the phase before
-- the security transition, the USB volume that a hotkey boots, the boot partition, and the run.
pub mod Config
pub mod Hotkey
pub mod Usb
pub mod Chainload
pub mod Flow
pub mod Manager
mod Tests

-- ===== src/Boot.antt =====
-- Boot orchestration (uefi/crates/patina_boot/src): what firmware is asked, device paths, the policy
-- for boot sources, load options, the connection of controllers, the security transition, boot
-- attempts and the simple boot manager.
pub mod Firmware
pub mod Paths
pub mod Policy
pub mod Config
pub mod Proxy
pub mod Events
pub mod Connect
pub mod Expand
pub mod LoadOption
pub mod Variables
pub mod Console
pub mod Fallback
pub mod Attempt
pub mod Simple
pub mod Quiet
pub mod Guard
pub mod Tests

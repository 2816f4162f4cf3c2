-- ===== src/Tui.antt =====
-- The terminal user interface of ec/test-tui, without its rendering.
pub mod Samples
pub mod Battery
pub mod Update
pub mod App
pub mod Tests

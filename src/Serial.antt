-- ===== src/Serial.antt =====
-- The serial data source (ec/test-lib/src/serial.rs): requests to the embedded controller over a
-- serial port, framed by MCTP.
pub mod Header
pub mod Port
pub mod Send
pub mod Frames
pub mod Accepts
pub mod Device
pub mod Tests

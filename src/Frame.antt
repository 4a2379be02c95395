-- ===== src/Frame.antt =====
-- `COBS( envelope | crc16 ) 0x00` (crates/km43/src/frame.rs).
pub mod Defs
pub mod Write
pub mod Feed
pub mod RoundTrip
pub mod Reader
pub mod Sound
pub mod Timeout
mod Examples

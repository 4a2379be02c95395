-- ===== src/Crc.antt =====
-- The CRC-16 of a frame (crates/km43/src/crc.rs), and the corruption that it catches.
pub mod Defs
pub mod Linear
pub mod Detect
mod Examples

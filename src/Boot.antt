-- ===== src/Boot.antt =====
-- The boot body (crates/km43/src/boot.rs).
pub mod Defs
pub mod Decode
pub mod Words
pub mod Pairs
pub mod Wire
mod Examples

-- ===== src/Time.antt =====
-- Setting the clock (crates/km43/src/time.rs).
pub mod Defs
pub mod Ack
pub mod Wire
mod Examples

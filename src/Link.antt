-- ===== src/Link.antt =====
-- Messages between the two firmwares (crates/km43/src/linklocal.rs and pairing_window.rs).
pub mod WifiError
pub mod Types
pub mod Intake
pub mod Bodies
pub mod Reasons
pub mod Connections
pub mod Outcomes
pub mod Verdicts
pub mod Wire
pub mod Arriving
mod Examples

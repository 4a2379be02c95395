-- ===== src/Ble.antt =====
-- Messages over BLE attribute values (crates/km43/src/ble.rs).
pub mod Defs
pub mod Delivery
pub mod Whole
pub mod Receiver
pub mod Reassembler
pub mod Reassembly
mod Examples

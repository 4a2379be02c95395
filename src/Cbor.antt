-- ===== src/Cbor.antt =====
-- The restricted CBOR of the protocol (crates/km43/src/cbor.rs).
pub mod Types
pub mod Nest
pub mod Utf8
pub mod Bytes
pub mod Heads
pub mod Reader
pub mod Writer
pub mod Argument
pub mod View
pub mod ViewKeys
pub mod Bounds
pub mod Calls
pub mod Methods
pub mod Steps
pub mod Wrote
pub mod CallOk
pub mod ContainersOk
pub mod CallsOk
pub mod Standing
pub mod Decode
pub mod ReadsBack
pub mod ContainerReads
pub mod CallReads
pub mod Owed
pub mod Trace
pub mod RoundTrip
pub mod Refines
mod RoundTripExamples
mod Examples

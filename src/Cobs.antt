-- ===== src/Cobs.antt =====
-- COBS framing over buffers the caller owns (crates/km43/src/cobs.rs).
-- A `&mut [u8]` is a list that a call returns beside its result, so that what a refused call
-- leaves in the destination can be stated.
pub mod Defs
pub mod Stuff
pub mod Steps
pub mod Encode
pub mod Decode
pub mod RoundTrip
pub mod Bounds
mod Examples

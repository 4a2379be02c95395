-- ===== src/Sealed.antt =====
-- Sealed bodies (crates/km43/src/sealed.rs), and the cipher calls of noise.rs beside it.
pub mod Types
pub mod Window
pub mod Cipher
pub mod Seal
pub mod Open
pub mod Replay
pub mod Nonces
pub mod Spent
mod Examples

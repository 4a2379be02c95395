-- ===== src/Subscribe.antt =====
-- `Subscribe` and its acknowledgement (crates/km43/src/subscribe.rs).
pub mod Defs
pub mod Answer
pub mod Wire
mod Examples

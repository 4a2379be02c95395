-- ===== src/Counter.antt =====
-- The run that a counter's totals are judged against (crates/km43/src/counter.rs).
pub mod Defs
pub mod Judge
mod Examples

-- ===== src/Envelope.antt =====
-- The envelope of a message (crates/km43/src/envelope.rs), who may send it
-- (crates/km43/src/admission.rs), and where a refusal goes (crates/km43/src/routing.rs).
pub mod Kinds
pub mod LinkKinds
pub mod Codes
pub mod Defs
pub mod Admission
pub mod Routing
pub mod EveryKind
pub mod Opcodes
mod Examples

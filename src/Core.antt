-- ===== src/Core.antt =====
-- crates/conductr-core: the types that the other crates share, and the safety preset.
pub mod Types
pub mod DepGraph
pub mod Sessions
pub mod Signals
pub mod Safety
pub mod Maturity
mod Examples

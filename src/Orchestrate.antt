-- ===== src/Orchestrate.antt =====
-- crates/conductr-orchestrate: drives the implementation of issues in the order of their
-- dependencies.
pub mod Graph
pub mod Deps
pub mod Classifier
pub mod Dispatch
pub mod Isolation
pub mod CiGate
pub mod Architect
pub mod Cycle
pub mod Tempo
mod Examples

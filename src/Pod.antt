-- ===== src/Pod.antt =====
-- crates/conductr-pod: which session of the pod is free, and how crashed ones are started again.
pub mod Free
pub mod Heal
pub mod Diagnose
mod Examples

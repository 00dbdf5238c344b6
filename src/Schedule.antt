-- ===== src/Schedule.antt =====
-- crates/conductr-schedule: rhythms that say when what is done.
pub mod Notation
pub mod Pattern
pub mod Duration
pub mod Parser
pub mod Dsl
pub mod FromPlan
pub mod PlanPattern
mod Examples

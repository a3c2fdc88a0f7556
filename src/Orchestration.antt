-- ===== src/Orchestration.antt =====
-- The services of src/factory/orchestration.
pub mod Transitions
pub mod Dispatch
pub mod Tracking
pub mod Recovery
pub mod Retry
pub mod Watch
pub mod Reconciliation
pub mod Rework
pub mod Texts
pub mod Publication
pub mod Sprint
pub mod Intake
pub mod Workers
pub mod Backlog

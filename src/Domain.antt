-- ===== src/Domain.antt =====
-- The domain model: src/factory/domain.
pub mod Enums
pub mod Errors
pub mod Models
pub mod Lifecycle
pub mod Projects
pub mod Operational
pub mod Sprints
pub mod Values

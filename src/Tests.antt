-- ===== src/Tests.antt =====
-- Concrete runs of the modelled code.
pub mod Sample
pub mod Storage
pub mod Services
pub mod Validation
pub mod Review
pub mod Publishing
pub mod Sprinting
pub mod Arriving
pub mod Working
pub mod Materializing

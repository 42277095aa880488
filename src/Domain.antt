-- ===== src/Domain.antt =====
-- src/domain/mod.rs: the pure lifecycle types and rules.
pub mod Actor
pub mod Control
pub mod Lifecycle
pub mod Reason
pub mod Authority
pub mod Reasons

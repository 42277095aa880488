-- ===== src/Registry.antt =====
-- src/application/service_registry.rs: the registered services and their lifecycle operations.
pub mod Types
pub mod Supervision
pub mod Entry
pub mod Observe
pub mod Launch
pub mod Operations
pub mod Refresh
pub mod Topology
pub mod Dispatch
pub mod Reading
pub mod Api
pub mod Laws

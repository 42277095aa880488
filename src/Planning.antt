-- ===== src/Planning.antt =====
-- src/application/dependency_control.rs: in which order services are started with their dependencies.
pub mod StartOrder
pub mod Sets
pub mod Sound
pub mod Fuel
pub mod Acyclic
pub mod Order
pub mod Mutation
pub mod Shutdown
pub mod Target
pub mod Untouched

-- ===== src/Config.antt =====
-- src/adapters/config.rs: the typed configuration, its validation, and the registrations made of it.
-- Parsing is that of the serde libraries.
pub mod Types
pub mod Texts
pub mod Checks
pub mod Places
pub mod Dependencies
pub mod Validation
pub mod Ports
mod Search
pub mod Registrations
pub mod Limits
pub mod Mirrors
pub mod Registered
mod Ranks
pub mod Pointers
mod Acyclic
pub mod PortLists
pub mod StartPlans

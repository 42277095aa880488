-- ===== src/LiveLogs.antt =====
-- src/adapters/service_logs.rs: the in-memory fan-out of service output.
pub mod Events
pub mod Ring
pub mod Lines
pub mod Cuts
pub mod Subscribers
pub mod Hub

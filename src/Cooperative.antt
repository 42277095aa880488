-- ===== src/Cooperative.antt =====
-- src/application/cooperative_operations.rs: the store of cooperative reload operations. The mutex's
-- content is `OperationState`, with its poisoning as a flag, and each critical section is a function
-- on it.
pub mod Types
pub mod Begin
pub mod Worker
pub mod Flights
mod Retention
mod Admission
mod Kept
pub mod Interleaving
pub mod Outlasting

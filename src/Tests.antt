-- ===== src/Tests.antt =====
-- Runs on concrete inputs: a small machine, and for each theorem with conditions one case of it.
mod Machines
mod Requests
mod Runtimes
mod Plans
mod Mutations
mod Logs
mod Operations
mod Configs
mod Tokens
mod Texts

-- ===== src/Application.antt =====
-- packages/application: what the service computes for a task before it reaches the orchestrator.
pub mod Errors
pub mod Details
pub mod Execution
pub mod Reservations
pub mod Tasks
pub mod Roles

-- ===== src/Core.antt =====
-- packages/core: the domain, the policy engine and the route orchestrator.
pub mod Domain
pub mod Policy
pub mod Flow
pub mod Authorize
pub mod Route

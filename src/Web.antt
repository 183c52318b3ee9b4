-- ===== src/Web.antt =====
-- apps/web/src: what the server does around the packages, as far as it decides what a request may
-- change.
pub mod Errors
pub mod Amounts
pub mod Lifecycle
pub mod Requests
pub mod Mutation

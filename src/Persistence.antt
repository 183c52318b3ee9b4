-- ===== src/Persistence.antt =====
-- packages/persistence/src: the repositories, as far as their statements decide what a caller may
-- do. A table is a function from its primary key to its row; every SQL statement is one step, and
-- the time that `NOW()` reads, in microseconds, is an argument of the step.
pub mod Clock
pub mod Idempotency
pub mod Locks
pub mod RateLimit
pub mod Tasks

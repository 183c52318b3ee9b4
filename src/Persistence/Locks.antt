-- ===== src/Persistence/Locks.antt =====
-- packages/persistence/src/security.ts: the mutation locks, a table of one row for each resource.
-- `acquireMutationLock` and `releaseMutationLock` are one statement each.
pub mod Exclusion
pub mod Availability
mod Tests
use canalis.Base.{
  ℕ, ◌+◌, String, Option, none, some, Bool, true, false, ◌&&◌, ◌||◌, ◌==◌, leb, if◌then◌else◌,
}
use canalis.Persistence.Clock.{seconds, bounded}

-- A row of `mutation_locks`, less its key.
pub record MutationLock : Type 0 where
  pub owner_wallet : String
  pub operation : String
  pub holder_key : String
  pub acquired_at : ℕ
  pub expires_at : ℕ

abbrev pub MutationLocks : Type 0
MutationLocks = String → Option MutationLock

pub record LockRequest : Type 0 where
  pub resource_key : String
  pub owner_wallet : String
  pub operation : String
  pub holder_key : String
  pub ttl_seconds : Option ℕ

-- A write of the row of one resource; `none` deletes it.
abbrev pub put : String → Option MutationLock → MutationLocks → MutationLocks
put key row locks = λ other. if key == other then row else locks other

abbrev pub lock_ttl : LockRequest → ℕ
lock_ttl input = bounded 30 300 300 input.ttl_seconds

abbrev pub excluded : ℕ → LockRequest → MutationLock
excluded now input = record {
  owner_wallet = input.owner_wallet;
  operation = input.operation;
  holder_key = input.holder_key;
  acquired_at = now;
  expires_at = now + seconds (lock_ttl input);
}

-- The condition under which a conflicting row is overwritten.
abbrev pub yields : ℕ → LockRequest → MutationLock → Bool
yields now input row = leb row.expires_at now || row.holder_key == input.holder_key

-- The row that the statement returns: the new one, where it was inserted or overwrote another.
abbrev pub returning : ℕ → LockRequest → Option MutationLock → Option MutationLock
returning now input none = some (excluded now input)
returning now input (some row) = if yields now input row then some (excluded now input) else none

-- `rows.some((row) => row.holder_key === input.holderKey)`
abbrev pub is_mine : LockRequest → Option MutationLock → Bool
is_mine input none = false
is_mine input (some row) = row.holder_key == input.holder_key

-- What is stored when nothing is returned is what was there.
abbrev pub stored : Option MutationLock → Option MutationLock → Option MutationLock
stored none before = before
stored (some row) _ = some row

unfoldable pub acquire_mutation_lock : ℕ → LockRequest → MutationLocks → Bool × MutationLocks
acquire_mutation_lock now input locks =
    let before = locks input.resource_key in
    let row = returning now input before in
    (is_mine input row, put input.resource_key (stored row before) locks)

abbrev pub released : String → Option MutationLock → Option MutationLock
released holder none = none
released holder (some row) = if row.holder_key == holder then none else some row

unfoldable pub release_mutation_lock : (resource holder : String) → MutationLocks → MutationLocks
release_mutation_lock resource holder locks = put resource (released holder (locks resource)) locks

-- ===== src/Web/Mutation/Store.antt =====
-- The repository as the calls of the server reach it: each call is its statements, at the time that
-- the clock shows, on the tables beside whatever else there is.
use canalis.Base.{ℕ}
use canalis.Base.Action.{returned}
use canalis.Persistence.Idempotency.{
  IdempotencyRecords, begin_idempotency, complete_idempotency, abandon_idempotency,
}
use canalis.Persistence.Locks.{MutationLocks, acquire_mutation_lock, release_mutation_lock}
use canalis.Web.Mutation.{SecurityStore}

pub record Server (W : Type 0) : Type 0 where
  pub clock : ℕ
  pub records : IdempotencyRecords
  pub locks : MutationLocks
  pub world : W

unfoldable pub postgres_store : {W : Type 0} → SecurityStore (Server W)
postgres_store = record {
  begin_idempotency = λ input s.
      let (result, records) = begin_idempotency s.clock input s.records in
      (returned result, record s { records = records });
  complete_idempotency =
      λ input s. (returned tt, record s { records = complete_idempotency s.clock input s.records });
  abandon_idempotency =
      λ identity s. (returned tt, record s { records = abandon_idempotency identity s.records });
  acquire_mutation_lock = λ input s.
      let (granted, locks) = acquire_mutation_lock s.clock input s.locks in
      (returned granted, record s { locks = locks });
  release_mutation_lock = λ resource holder s.
      (returned tt, record s { locks = release_mutation_lock resource holder s.locks });
}

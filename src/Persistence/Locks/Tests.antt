-- ===== src/Persistence/Locks/Tests.antt =====
-- Two requests that change the same task.
use canalis.Base.{none, some, true, ◌≡◌, refl, ◌↔◌, arith}
use canalis.Persistence.Locks.{LockRequest, acquire_mutation_lock, release_mutation_lock}
use canalis.Persistence.Locks.Exclusion.{
  IsFree, acquire_mutation_lock_iff, World, initial, acquired, Reach, here, next, acquire,
  Reach-Exclusive,
}
use canalis.Persistence.Locks.Availability.{Reach-Available, acquire_mutation_lock-release}

abbrev first_request : LockRequest
first_request = record {
  resource_key = "task:t1:mutation";
  owner_wallet = "wallet";
  operation = "task.lifecycle";
  holder_key = "key-1";
  ttl_seconds = none;
}

abbrev second_request : LockRequest
second_request = record first_request { holder_key = "key-2"; ttl_seconds = some 5 }

-- The first call is granted, the second is not.
abbrev contended : World
contended = acquired second_request (acquired first_request initial)

contended-Reach : Reach initial contended
contended-Reach =
    next (next here (acquire initial first_request))
      (acquire (acquired first_request initial) second_request)

second_waits : contended.grants "task:t1:mutation" "key-2" ≡ none
unfolding acquire_mutation_lock
second_waits = refl

Reach-Exclusive_example : first_request.holder_key ≡ first_request.holder_key
unfolding acquire_mutation_lock
Reach-Exclusive_example =
    Reach-Exclusive contended-Reach "task:t1:mutation" "key-1" "key-1" 300000000 300000000 refl refl
      (omega arith) (omega arith)

Reach-Available_example : (acquire_mutation_lock 300000000 second_request contended.locks).0 ≡ true
unfolding acquire_mutation_lock
Reach-Available_example = Reach-Available contended-Reach second_request 300000000 (omega arith)

acquire_mutation_lock_iff_example :
    ((acquire_mutation_lock 7 second_request contended.locks).0 ≡ true)
    ↔ IsFree 7 second_request (contended.locks "task:t1:mutation")
acquire_mutation_lock_iff_example = acquire_mutation_lock_iff 7 second_request contended.locks

released_lock_is_granted :
    (acquire_mutation_lock 9 second_request (
      release_mutation_lock "task:t1:mutation" "key-1"
        (acquire_mutation_lock 3 first_request initial.locks).1)).0
    ≡ true
unfolding acquire_mutation_lock
released_lock_is_granted =
    acquire_mutation_lock-release 3 9 first_request second_request initial.locks refl refl

-- A shorter grant runs out first, and then the resource goes to the other.
expired_grant :
    (acquired first_request (record (acquired second_request initial) { clock = 30000000 })).grants
      "task:t1:mutation" "key-1"
    ≡ some 330000000
unfolding acquire_mutation_lock
expired_grant = refl

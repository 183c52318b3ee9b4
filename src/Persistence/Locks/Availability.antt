-- ===== src/Persistence/Locks/Availability.antt =====
-- That a mutation lock comes free again: by a release, and at the latest by its expiry.
use text.Mathlib.TextPositions.{eq_refl}
use canalis.Base.{ℕ, ◌+◌, ◌≤◌, String, Option, none, some, true, ◌≡◌, refl, inl, arith, eq_iff}
use canalis.Persistence.Clock.{seconds, bounded_range}
use canalis.Persistence.Locks.{
  MutationLock, MutationLocks, LockRequest, lock_ttl, acquire_mutation_lock, release_mutation_lock,
}
use canalis.Persistence.Locks.Exclusion.{
  IsFree, acquire_mutation_lock_iff, World, initial, acquired, given_back, Reach, here, next, wait,
  acquire, release,
}

-- No row outlives the longest time that can be asked for.
abbrev Expires : World → Type 0
Expires w =
    (r : String) (row : MutationLock)
    → w.locks r ≡ some row
    → row.expires_at ≤ w.clock + seconds 300

acquired-Expires : (w : World) (input : LockRequest) → Expires w → Expires (acquired input w)
unfolding acquire_mutation_lock
acquired-Expires w input h r new e = outcome (w.locks input.resource_key) refl
  where
    top : lock_ttl input ≤ 300
    top = (bounded_range 30 300 300 input.ttl_seconds (omega arith)).1

    outcome :
        (row : Option MutationLock)
        → w.locks input.resource_key ≡ row
        → new.expires_at ≤ w.clock + seconds 300
    outcome none p = ground (arith, p, top, e, h r new)
    outcome (some row) p = ground (arith, p, top, e, h r new, eq_iff input.resource_key r)

given_back-Expires :
    (w : World) (resource holder : String) → Expires w → Expires (given_back resource holder w)
unfolding release_mutation_lock
given_back-Expires w resource holder h r new e = outcome (w.locks resource) refl
  where
    outcome :
        (row : Option MutationLock)
        → w.locks resource ≡ row
        → new.expires_at ≤ w.clock + seconds 300
    outcome none p = ground (arith, p, e, h r new)
    outcome (some row) p = ground (arith, p, e, h r new, eq_iff resource r)

Reach-Expires : {w : World} → Reach initial w → Expires w
Reach-Expires here = λ r row e. cc
Reach-Expires (next reach (wait w time)) = λ r row e. omega (arith, Reach-Expires reach r row e)
Reach-Expires (next reach (acquire w input)) = acquired-Expires w input (Reach-Expires reach)
Reach-Expires (next reach (release w resource holder)) =
    given_back-Expires w resource holder (Reach-Expires reach)

-- A lock is never lost: whatever the callers did, a call made 300 seconds later is granted the
-- resource, by whomever and for whatever resource it is made.
pub Reach-Available :
    {w : World}
    → Reach initial w
    → (input : LockRequest) (now : ℕ) → w.clock + seconds 300 ≤ now
    → (acquire_mutation_lock now input w.locks).0 ≡ true
Reach-Available {w} reach input now later =
    (acquire_mutation_lock_iff now input w.locks).1 (outcome (w.locks input.resource_key) refl)
  where
    outcome : (row : Option MutationLock) → w.locks input.resource_key ≡ row → IsFree now input row
    outcome none e = tt
    outcome (some row) e = inl (omega (arith, Reach-Expires reach input.resource_key row e))

-- Once the caller that was granted a resource has released it, any call is granted it at any time.
pub acquire_mutation_lock-release :
    (now later : ℕ) (input input' : LockRequest) (locks : MutationLocks)
    → input'.resource_key ≡ input.resource_key
    → (acquire_mutation_lock now input locks).0 ≡ true
    → (acquire_mutation_lock later input' (
        release_mutation_lock input.resource_key input.holder_key
          (acquire_mutation_lock now input locks).1)).0
      ≡ true
unfolding acquire_mutation_lock release_mutation_lock
acquire_mutation_lock-release now later input input' locks same granted =
    outcome (locks input.resource_key) refl
  where
    outcome :
        (row : Option MutationLock)
        → locks input.resource_key ≡ row
        → (acquire_mutation_lock later input' (
            release_mutation_lock input.resource_key input.holder_key
              (acquire_mutation_lock now input locks).1)).0
          ≡ true
    outcome none p = ground (
      arith,
      p,
      same,
      eq_refl input.holder_key,
      eq_refl input.resource_key,
      eq_refl input'.holder_key,
    )
    outcome (some row) p = ground (
      arith,
      p,
      same,
      granted,
      eq_refl input.holder_key,
      eq_refl input.resource_key,
      eq_refl input'.holder_key,
    )

-- ===== src/Persistence/Locks/Exclusion.antt =====
-- Who holds a resource: the grants that `acquireMutationLock` has given out, followed through every
-- interleaving of the callers' statements and of the passing of time.
use text.Mathlib.TextPositions.{eq_refl}
use canalis.Base.{
  ℕ, ◌+◌, ◌≤◌, ◌<◌, String, Option, none, some, true, ◌==◌, if◌then◌else◌, ◌≡◌, refl, ◌↔◌, ◌⊎◌,
  arith, eq_iff,
}
use canalis.Persistence.Clock.{seconds}
use canalis.Persistence.Locks.{
  MutationLock, MutationLocks, LockRequest, lock_ttl, acquire_mutation_lock, release_mutation_lock,
}

-- Nobody but the caller holds the resource at this time.
abbrev pub IsFree : ℕ → LockRequest → Option MutationLock → Type 0
IsFree now input none = Unit
IsFree now input (some row) = (row.expires_at ≤ now) ⊎ (row.holder_key ≡ input.holder_key)

-- The lock is granted exactly when the resource has no row, or its row has expired, or its row is
-- the caller's own.
pub acquire_mutation_lock_iff :
    (now : ℕ) (input : LockRequest) (locks : MutationLocks)
    → ((acquire_mutation_lock now input locks).0 ≡ true)
      ↔ IsFree now input (locks input.resource_key)
unfolding acquire_mutation_lock
acquire_mutation_lock_iff now input locks = outcome (locks input.resource_key) refl
  where
    outcome :
        (row : Option MutationLock)
        → locks input.resource_key ≡ row
        → ((acquire_mutation_lock now input locks).0 ≡ true) ↔ IsFree now input row
    outcome none e = ground (arith, e, eq_refl input.holder_key)
    outcome (some row) e =
        ground (arith, e, eq_refl input.holder_key, eq_iff row.holder_key input.holder_key)

-- The callers' view: the clock, the table, and for each resource and holder the end of the grant
-- that the holder has, if it has one.
pub record World : Type 0 where
  pub clock : ℕ
  pub locks : MutationLocks
  pub grants : String → String → Option ℕ

abbrev pub initial : World
initial = record { clock = 0; locks = λ _. none; grants = λ _ _. none }

abbrev pub regrant :
    String → String → Option ℕ → (String → String → Option ℕ) → String → String → Option ℕ
regrant resource holder end grants r h =
    if resource == r then if holder == h then end else grants r h else grants r h

-- The caller counts on the resource when the call returns true, for as long as it asked for.
abbrev pub acquired : LockRequest → World → World
acquired input w =
    let (granted, locks) = acquire_mutation_lock w.clock input w.locks in
    let end = some (w.clock + seconds (lock_ttl input)) in
    record w {
      locks = locks;
      grants =
          if granted then regrant input.resource_key input.holder_key end w.grants else w.grants;
    }

abbrev pub given_back : String → String → World → World
given_back resource holder w = record w {
  locks = release_mutation_lock resource holder w.locks;
  grants = regrant resource holder none w.grants;
}

pub data Step : World → World → Type 0 where
  wait : (w : World) (time : ℕ) → Step w (record w { clock = w.clock + time })
  acquire : (w : World) (input : LockRequest) → Step w (acquired input w)
  release : (w : World) (resource holder : String) → Step w (given_back resource holder w)

pub data Reach (w : World) : World → Type 0 where
  here : Reach w w
  next : {u v : World} → Reach w u → Step u v → Reach w v

-- Whose row it is, and until when.
abbrev owner : Option MutationLock → Option (String × ℕ)
owner none = none
owner (some row) = some (row.holder_key, row.expires_at)

-- A grant that has not ended is the holder's row in the table.
abbrev Backed : World → Type 0
Backed w =
    (r h : String) (end : ℕ)
    → w.grants r h ≡ some end
    → w.clock < end
    → owner (w.locks r) ≡ some (h, end)

acquired-Backed : (w : World) (input : LockRequest) → Backed w → Backed (acquired input w)
unfolding acquire_mutation_lock
acquired-Backed w input back r h end e live = outcome (w.locks input.resource_key) refl
  where
    outcome :
        (row : Option MutationLock)
        → w.locks input.resource_key ≡ row
        → owner ((acquired input w).locks r) ≡ some (h, end)
    outcome none p = ground (
      arith,
      p,
      eq_refl input.holder_key,
      eq_iff input.resource_key r,
      eq_iff input.holder_key h,
      back r h end,
    )
    outcome (some row) p = ground (
      arith,
      p,
      eq_refl input.holder_key,
      eq_iff row.holder_key input.holder_key,
      eq_iff input.resource_key r,
      eq_iff input.holder_key h,
      back r h end,
    )

given_back-Backed :
    (w : World) (resource holder : String) → Backed w → Backed (given_back resource holder w)
unfolding release_mutation_lock
given_back-Backed w resource holder back r h end e live = outcome (w.locks resource) refl
  where
    outcome :
        (row : Option MutationLock)
        → w.locks resource ≡ row
        → owner ((given_back resource holder w).locks r) ≡ some (h, end)
    outcome none p = ground (arith, p, eq_iff resource r, eq_iff holder h, back r h end)
    outcome (some row) p =
        ground
          (arith, p, eq_iff row.holder_key holder, eq_iff resource r, eq_iff holder h, back r h end)

Reach-Backed : {w : World} → Reach initial w → Backed w
Reach-Backed here = λ r h end e live. cc
Reach-Backed (next reach (wait w time)) =
    λ r h end e live. Reach-Backed reach r h end e (omega arith)
Reach-Backed (next reach (acquire w input)) = acquired-Backed w input (Reach-Backed reach)
Reach-Backed (next reach (release w resource holder)) =
    given_back-Backed w resource holder (Reach-Backed reach)

-- In every state that the callers can reach, by any interleaving of acquiring, releasing and
-- waiting, two grants of one resource that have not ended belong to the same holder.
pub Reach-Exclusive :
    {w : World}
    → Reach initial w
    → (resource one other : String) (end end' : ℕ) → w.grants resource one ≡ some end
    → w.grants resource other ≡ some end'
    → w.clock < end
    → w.clock < end'
    → one ≡ other
Reach-Exclusive reach resource one other end end' e e' live live' =
    let back = Reach-Backed reach in
    cc (back resource one end e live, back resource other end' e' live')

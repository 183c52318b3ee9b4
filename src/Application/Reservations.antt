-- ===== src/Application/Reservations.antt =====
-- packages/application/src/service.ts: `allocateReservations`, which spreads a task's budget over
-- its providers. The amounts come from `parseUsdc` and are never negative; what is left to spread
-- can be. The provider ids are distinct: `parseCreateTaskRequest` makes them a set. A thrown
-- `ApplicationError` is its message; its code and status are the same everywhere. What a slot has
-- been allocated in the end is the ceiling of its reservation.
pub mod Rounds
pub mod Total
mod Tests
use canalis.Base.{
  ℕ, zero, suc, ◌+◌, ◌-◌, ◌/◌, String, Option, none, some, List, [], ◌∷◌, Bool, true, false, ◌||◌,
  ltb, leb, eqb, if◌then◌else◌, length, map,
}
use canalis.Base.Int.{ℤ, pos, pos_part, ◌-ℤ◌, ltb_ℤ, leb_ℤ, eqb_ℤ}
use canalis.Base.Dict.{Dict, lookup}
use canalis.Base.Text.{template}
use canalis.Base.Action.{first_error}
use canalis.Base.Result.{Result, ok, err}

-- A provider with its entries in `caps` and `allocations`.
pub record Slot : Type 0 where
  pub provider_id : String
  pub cap : ℕ
  pub allocated : ℕ

-- `providerCapsAtomic[providerId] ?? budgetAtomic`
abbrev cap_or : ℕ → Option ℕ → ℕ
cap_or budget none = budget
cap_or budget (some cap) = cap

abbrev pub fresh_slot : ℕ → Dict ℕ → String → Slot
fresh_slot budget caps id = record {
  provider_id = id;
  cap = cap_or budget (lookup id caps);
  allocated = 1;
}

abbrev pub capacity : List Slot → ℕ
capacity [] = 0
capacity (s ∷ ss) = s.cap + capacity ss

-- The first provider whose cap is not positive.
unfoldable pub cap_error : List Slot → Option String
cap_error [] = none
cap_error (s ∷ ss) =
    let rest = cap_error ss in
    if leb s.cap 0
    then some (template ("Provider cap " ∷ s.provider_id ∷ " must be greater than zero." ∷ []))
    else rest

abbrev pub is_eligible : Slot → Bool
is_eligible s = ltb s.allocated s.cap

abbrev pub eligible_count : List Slot → ℕ
eligible_count [] = 0
eligible_count (s ∷ ss) = let rest = eligible_count ss in if is_eligible s then suc rest else rest

-- `available < share ? available : share < remaining ? share : remaining`
unfoldable pub addition : (available share : ℕ) → (remaining : ℤ) → ℤ
addition available share remaining =
    if ltb available share
    then pos available
    else if ltb_ℤ (pos share) remaining
    then pos share
    else remaining

-- One round of the `for` loop for an eligible provider: its slot, what remains, and `progressed`.
unfoldable pub give : ℕ → Slot → ℤ → Slot × ℤ × Bool
unfolding addition
give share s remaining =
    let add = addition (s.cap - s.allocated) share remaining in
    if ltb_ℤ (pos 0) add
    then (record s { allocated = s.allocated + pos_part add }, remaining -ℤ add, true)
    else (s, remaining, false)

-- The `for` loop over the eligible providers; it stops when nothing remains.
unfoldable pub pass : ℕ → List Slot → ℤ → List Slot × ℤ × Bool
unfolding give
pass share [] remaining = ([], remaining, false)
pass share (s ∷ ss) remaining =
    let (s', remaining', progressed) =
      if is_eligible s then give share s remaining else (s, remaining, false) in
    let (ss', remaining'', more) = pass share ss remaining' in
    if eqb_ℤ remaining (pos 0)
    then (s ∷ ss, remaining, false)
    else (s' ∷ ss', remaining'', progressed || more)

-- `(remaining + divisor - 1n) / divisor`, where something remains.
unfoldable pub share_of : ℤ → ℕ → ℕ
share_of remaining divisor = (pos_part remaining + divisor - 1) / divisor

-- The `while` loop, on fuel; `none` says that the fuel ran out.
unfoldable pub fill : ℕ → List Slot → ℤ → Option (Result (List Slot))
unfolding pass share_of
fill zero ss remaining = if leb_ℤ remaining (pos 0) then some (ok ss) else none
fill (suc fuel) ss remaining =
    let (ss', remaining', progressed) =
      pass (share_of remaining (eligible_count ss)) ss remaining in
    let rest = fill fuel ss' remaining' in
    if leb_ℤ remaining (pos 0)
    then some (ok ss)
    else if eqb (eligible_count ss) 0
    then some (err "Provider caps cannot cover the task budget.")
    else if progressed
    then rest
    else some (err "Provider reservation allocation could not progress.")

-- The checks before the loop.
unfoldable pub allocation_error : ℕ → List Slot → Option String
unfolding cap_error
allocation_error budget slots =
    elim (first_error (
      (
        ltb budget (length slots),
        "Task budget is too small for the selected provider reservations.",
      )
      ∷ [])) [
        | some message ↦ some message
        | none ↦ elim (cap_error slots) [
          | some message ↦ some message
          | none ↦ first_error (
              (
                ltb (capacity slots) budget,
                "Selected provider caps cannot collectively reserve the task budget.",
              )
              ∷ [])
        ]
      ]

-- What each round gives away is one unit at least, so the budget is enough fuel.
unfoldable pub allocate_reservations : ℕ → List String → Dict ℕ → Option (Result (List Slot))
unfolding allocation_error fill lookup
allocate_reservations budget provider_ids caps =
    let slots = map (fresh_slot budget caps) provider_ids in
    elim (allocation_error budget slots) [
      | some message ↦ some (err message)
      | none ↦ fill budget slots (pos budget -ℤ pos (length provider_ids))
    ]

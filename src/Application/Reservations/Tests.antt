-- ===== src/Application/Reservations/Tests.antt =====
-- Runs of the allocation.
use canalis.Base.{ℕ, ◌≤◌, String, some, List, [], ◌∷◌, ◌≡◌, refl, arith, All, map}
use canalis.Base.Int.{◌-ℤ◌}
use canalis.Base.Dict.{Dict, lookup}
use canalis.Base.Result.{ok}
use canalis.Application.Reservations.{
  Slot, cap_error, addition, give, pass, share_of, fill, allocation_error, allocate_reservations,
}
use canalis.Application.Reservations.Rounds.{InCap, total}
use canalis.Application.Reservations.Total.{allocate_reservations-InCap}

abbrev sample_caps : Dict ℕ
sample_caps = ("inference", 4) ∷ []

abbrev sample_ids : List String
sample_ids = "search" ∷ "data" ∷ "inference" ∷ []

allocate_reservations-InCap_example :
    (ss : List Slot) × (allocate_reservations 13 sample_ids sample_caps ≡ some (ok ss))
    × All InCap ss
    × (map (λ (s : Slot). s.provider_id) ss ≡ sample_ids)
    × (13 ≤ total ss)
unfolding lookup
allocate_reservations-InCap_example =
    allocate_reservations-InCap 13 sample_caps sample_ids (omega arith)
      (omega arith, (omega arith, (omega arith, tt))) (omega arith)

-- A cap below a provider's even share makes the reservations exceed the budget: 5 + 5 + 4 of 13.
sample_exceeds :
    allocate_reservations 13 sample_ids sample_caps
    ≡ some (
        ok (
          record { provider_id = "search"; cap = 13; allocated = 5 }
          ∷ record { provider_id = "data"; cap = 13; allocated = 5 }
          ∷ record { provider_id = "inference"; cap = 4; allocated = 4 }
          ∷ []))
unfolding allocate_reservations allocation_error cap_error fill pass give addition share_of lookup
    ◌-ℤ◌
sample_exceeds = refl

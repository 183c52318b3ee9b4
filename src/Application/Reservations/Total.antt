-- ===== src/Application/Reservations/Total.antt =====
-- What the allocation adds up to.
use canalis.Base.{
  ℕ, zero, suc, ◌≤◌, String, Option, none, some, List, [], ◌∷◌, Bool, true, false, eqb,
  if◌then◌else◌, length, map, ◌≡◌, refl, subst, ◌⊎◌, inl, inr, Option-cases, All, if_rule, arith,
  eqb_iff, ◌∙◌, ap, sym,
}
use canalis.Base.Int.{ℤ, pos, ◌+ℤ◌, ◌-ℤ◌, ◌≤ℤ◌, ◌<ℤ◌, leb_ℤ, int_laws, leb_ℤ-sound}
use canalis.Base.Dict.{Dict}
use canalis.Base.Result.{Result, ok, err}
use canalis.Application.Reservations.{
  Slot, fresh_slot, capacity, cap_error, eligible_count, pass, share_of, fill, allocation_error,
  allocate_reservations,
}
use canalis.Application.Reservations.Rounds.{
  total, InCap, Passes, pass-Passes, pass_progresses, none_eligible, share_of_positive,
}

-- What the loop returns: the whole budget is given away, and no cap is passed.
abbrev pub Filled : List Slot → ℤ → Option (Result (List Slot)) → Type 0
Filled ss r x =
    (ss' : List Slot) × (x ≡ some (ok ss'))
    × All InCap ss'
    × (map (λ (s : Slot). s.provider_id) ss' ≡ map (λ (s : Slot). s.provider_id) ss)
    × (pos (total ss) +ℤ r ≤ℤ pos (total ss'))

fill-Filled :
    (fuel : ℕ) (ss : List Slot) (r : ℤ)
    → All InCap ss
    → r ≤ℤ pos fuel
    → pos (total ss) +ℤ r ≤ℤ pos (capacity ss)
    → Filled ss r (fill fuel ss r)
unfolding fill
fill-Filled zero ss r h k l =
    if_rule (λ x. Filled ss r x) (leb_ℤ r (pos 0))
      (λ e. (ss, refl, h, refl, omega (int_laws, leb_ℤ-sound r (pos 0) e)))
      (λ e. absurd (ground arith))
fill-Filled (suc fuel) ss r h k l =
    if_rule {A = Option (Result (List Slot))} (λ x. Filled ss r x) (leb_ℤ r (pos 0))
      (λ e. (ss, refl, h, refl, omega (int_laws, leb_ℤ-sound r (pos 0) e)))
      (λ e. remains (ground arith) (
        fill-Filled fuel (pass (share_of r (eligible_count ss)) ss r).0
          (pass (share_of r (eligible_count ss)) ss r).1))
  where
    share : ℕ
    share = share_of r (eligible_count ss)

    after : List Slot × ℤ × Bool
    after = pass share ss r

    kept : Passes ss r after
    kept = pass-Passes share ss r h

    remains :
        pos 0 <ℤ r
        → (All InCap after.0
            → after.1 ≤ℤ pos fuel
            → pos (total after.0) +ℤ after.1 ≤ℤ pos (capacity after.0)
            → Filled after.0 after.1 (fill fuel after.0 after.1))
        → Filled ss r (
            if eqb (eligible_count ss) 0
            then some (err "Provider caps cannot cover the task budget.")
            else if after.2
            then fill fuel after.0 after.1
            else some (err "Provider reservation allocation could not progress."))
    remains more later =
        if_rule {A = Option (Result (List Slot))} (λ x. Filled ss r x) (eqb (eligible_count ss) 0)
          (λ full. absurd (
            omega (int_laws, l, more, none_eligible ss h ((eqb_iff (eligible_count ss) 0).0 full))))
          (λ left.
            if_rule {A = Option (Result (List Slot))} (λ x. Filled ss r x) after.2
              (λ progressed. finish (drop progressed kept.less))
              (λ stuck. cc (
                stuck,
                pass_progresses share ss r
                    (share_of_positive r (eligible_count ss) more (some_left left)) more
                    (some_left left),
              )))
      where
        some_left : eqb (eligible_count ss) 0 ≡ false → 1 ≤ eligible_count ss
        some_left left = ground arith

        drop : after.2 ≡ true → (after.2 ≡ false) ⊎ (after.1 <ℤ r) → after.1 <ℤ r
        drop progressed (inl idle) = cc (progressed, idle)
        drop progressed (inr less) = less

        finish : after.1 <ℤ r → Filled ss r (fill fuel after.0 after.1)
        finish less =
            let same = kept.sum in
            let (ss', e, fits, ids, sum) = later kept.fits (omega (arith, less, k)) (
              subst (λ x. x ≤ℤ pos (capacity after.0)) (sym same)
                (subst (λ n. pos (total ss) +ℤ r ≤ℤ pos n) (sym kept.cap) l)) in
            (ss', e, fits, ids ∙ kept.ids, subst (λ x. x ≤ℤ pos (total ss')) same sum)

module _ (budget : ℕ) (caps : Dict ℕ) where
  abbrev slots : List String → List Slot
  slots ids = map (fresh_slot budget caps) ids

  -- Every provider may hold at least one unit.
  abbrev pub Positive : List String → Type 0
  Positive ids = All (λ id. 1 ≤ (fresh_slot budget caps id).cap) ids

  fresh-InCap : (ids : List String) → Positive ids → All InCap (slots ids)
  fresh-InCap [] h = tt
  fresh-InCap (id ∷ ids) (h, hs) = ((omega arith, h), fresh-InCap ids hs)

  no_cap_error : (ids : List String) → Positive ids → cap_error (slots ids) ≡ none
  unfolding cap_error
  no_cap_error [] h = refl
  no_cap_error (id ∷ ids) (h, hs) = ground (arith, h, no_cap_error ids hs)

  total_fresh : (ids : List String) → total (slots ids) ≡ length ids
  total_fresh [] = refl
  total_fresh (id ∷ ids) = omega (arith, total_fresh ids)

  length-slots : (ids : List String) → length (slots ids) ≡ length ids
  length-slots [] = refl
  length-slots (id ∷ ids) = omega (arith, length-slots ids)

  ids_fresh : (ids : List String) → map (λ (s : Slot). s.provider_id) (slots ids) ≡ ids
  ids_fresh [] = refl
  ids_fresh (id ∷ ids) = ap (λ xs. id ∷ xs) (ids_fresh ids)

  no_error :
      (ids : List String)
      → length ids ≤ budget
      → Positive ids
      → budget ≤ capacity (slots ids)
      → allocation_error budget (slots ids) ≡ none
  unfolding allocation_error
  no_error ids h k l = ground (arith, h, l, no_cap_error ids k, length-slots ids)

  allocate_fill :
      (ids : List String)
      → allocation_error budget (slots ids) ≡ none
      → allocate_reservations budget ids caps
        ≡ fill budget (slots ids) (pos budget -ℤ pos (length ids))
  unfolding allocate_reservations
  allocate_fill ids h = ground (arith, h)

  -- If the budget has a unit for each provider, no cap is zero, and the caps together cover the
  -- budget, the allocation succeeds within its fuel: it reserves for exactly the given providers,
  -- for each at least one unit and at most its cap, and altogether no less than the budget.
  pub allocate_reservations-InCap :
      (ids : List String)
      → length ids ≤ budget
      → Positive ids
      → budget ≤ capacity (slots ids)
      → (ss : List Slot) × (allocate_reservations budget ids caps ≡ some (ok ss))
        × All InCap ss
        × (map (λ (s : Slot). s.provider_id) ss ≡ ids)
        × (budget ≤ total ss)
  allocate_reservations-InCap ids h k l =
      let left : ℤ = pos budget -ℤ pos (length ids) in
      let (ss, e, fits, same, covered) =
        fill-Filled budget (slots ids) left (fresh-InCap ids k) (omega int_laws)
          (omega (int_laws, total_fresh ids)) in
      (
        ss,
        allocate_fill ids (no_error ids h k l) ∙ e,
        fits,
        same ∙ ids_fresh ids,
        omega (int_laws, covered, total_fresh ids),
      )

  slots-Positive : (ids : List String) → cap_error (slots ids) ≡ none → Positive ids
  unfolding cap_error
  slots-Positive [] h = tt
  slots-Positive (id ∷ ids) h = (ground arith, slots-Positive ids (ground arith))

  -- What the checks leave.
  checked :
      (ids : List String)
      → allocation_error budget (slots ids) ≡ none
      → (length (slots ids) ≤ budget)
        × (cap_error (slots ids) ≡ none)
        × (budget ≤ capacity (slots ids))
  unfolding allocation_error
  checked ids h = ground arith

  refused :
      (ids : List String) (message : String)
      → allocation_error budget (slots ids) ≡ some message
      → allocate_reservations budget ids caps ≡ some (err message)
  unfolding allocate_reservations
  refused ids message h = ground (arith, h)

  -- A reservation for each provider, at least one unit and within its cap, and the whole budget.
  abbrev pub Allocates : List String → List Slot → Type 0
  Allocates ids ss =
      All InCap ss × (map (λ (s : Slot). s.provider_id) ss ≡ ids) × (budget ≤ total ss)

  -- The allocation never runs out of fuel: it is refused by one of the checks, or it succeeds.
  pub allocate_reservations_total :
      (ids : List String)
      → ((message : String) × (allocate_reservations budget ids caps ≡ some (err message)))
        ⊎ ((ss : List Slot) × (allocate_reservations budget ids caps ≡ some (ok ss))
            × Allocates ids ss)
  allocate_reservations_total ids = elim (Option-cases (allocation_error budget (slots ids))) [
    | inr (message, h) ↦ inl (message, refused ids message h)
    | inl h ↦
        let (count, positive, covers) = checked ids h in
        let (ss, e, fits, same, covered) =
          allocate_reservations-InCap ids (omega (arith, count, length-slots ids))
            (slots-Positive ids positive) covers in
        inr (ss, e, (fits, same, covered))
  ]

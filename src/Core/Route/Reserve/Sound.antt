-- ===== src/Core/Route/Reserve/Sound.antt =====
-- The constructor starts the orchestrator's invariant, with all ceilings within the budget.
use canalis.Base.{
  String, Option, none, some, List, [], ◌∷◌, ◌≡◌, inl, inr, refl, ap, sym, subst, ◌∙◌, Bool, true,
  false, includes, arith, eq_iff, Option-cases,
}
use canalis.Base.Int.{ℤ, pos, ◌+ℤ◌, ◌≤ℤ◌, ◌<ℤ◌, +ℤ_comm, +ℤ_assoc, +ℤ-zero}
use canalis.Base.Dict.{Dict, lookup, insert, lookup-insert_cases}
use canalis.Base.Result.{ok, >>=-eq-ok, ok-injective}
use canalis.Core.Domain.{Task}
use canalis.Core.Policy.{cap_of}
use canalis.Core.Policy.Permits.{Within, Within-iff}
use canalis.Core.Flow.{ChannelReservation, ProviderRouteState, Orchestrator}
use canalis.Core.Authorize.{sum_of}
use canalis.Core.Authorize.Invariant.{StateFits, IsSound}
use canalis.Core.Authorize.History.{IsAttributed}
use canalis.Core.Route.Reserve.{
  Reserving, fresh_state, reservation_error, reserve_one, reserve_all, start, opened,
  new_orchestrator,
}

-- A new key adds its amount to the sum.
sum_of-insert_new :
    (amount : ProviderRouteState → ℤ) (k : String) (st : ProviderRouteState)
    (d : Dict ProviderRouteState)
    → lookup k d ≡ none
    → sum_of amount (insert k st d) ≡ sum_of amount d +ℤ amount st
unfolding lookup insert
sum_of-insert_new amount k st [] e = +ℤ_comm (amount st) (pos 0)
sum_of-insert_new amount k st ((j, old) ∷ d) e =
    ground
      (arith, sum_of-insert_new amount k st d, +ℤ_assoc (amount old) (sum_of amount d) (amount st))

-- A fresh channel: nothing spent, and the ceiling is positive and within the provider's cap.
record IsFresh (task : Task) (k : String) (st : ProviderRouteState) : Type 0 where
  cumulative : st.cumulative_authorized ≡ pos 0
  spent : st.spent_atomic ≡ pos 0
  ceiling : pos 0 <ℤ st.channel_ceiling
  cap : Within st.channel_ceiling (cap_of task.policy.provider_caps_atomic k)

record IsReserving (task : Task) (acc : Reserving) : Type 0 where
  total : acc.total_reserved ≡ sum_of (λ st. st.channel_ceiling) acc.provider_states
  unspent : sum_of (λ st. st.spent_atomic) acc.provider_states ≡ pos 0
  bounded : acc.total_reserved ≤ℤ task.budget.total_atomic
  known :
      (k : String) (st : ProviderRouteState)
      → lookup k acc.provider_states ≡ some st
      → includes acc.seen k ≡ true
  fresh :
      (k : String) (st : ProviderRouteState)
      → lookup k acc.provider_states ≡ some st
      → IsFresh task k st

module _ (task : Task) (is_registered : String → Bool) where
  -- What the checks of one round establish.
  record Accepted (acc : Reserving) (r : ChannelReservation) : Type 0 where
    unseen : includes acc.seen r.provider_id ≡ false
    positive : pos 0 <ℤ r.ceiling_atomic
    cap : Within r.ceiling_atomic (cap_of task.policy.provider_caps_atomic r.provider_id)
    fits : acc.total_reserved +ℤ r.ceiling_atomic ≤ℤ task.budget.total_atomic

  accepted :
      (acc : Reserving) (r : ChannelReservation)
      → reservation_error task is_registered acc r ≡ none
      → Accepted acc r
  unfolding reservation_error
  accepted acc r e =
      ground
        (arith, Within-iff r.ceiling_atomic (cap_of task.policy.provider_caps_atomic r.provider_id))

  absent :
      (acc : Reserving) (k : String)
      → IsReserving task acc
      → includes acc.seen k ≡ false
      → lookup k acc.provider_states ≡ none
  absent acc k v unseen = elim (Option-cases (lookup k acc.provider_states)) [
    | inl e ↦ e
    | inr (st, e) ↦ cc (v.known k st e)
  ]

  reserve_one-IsReserving :
      (acc : Reserving) (r : ChannelReservation)
      → Accepted acc r
      → IsReserving task acc
      → IsReserving task (reserve_one task is_registered acc r)
  unfolding reserve_one
  reserve_one-IsReserving acc r a v =
      let missing = absent acc r.provider_id v a.unseen in
      let fresh : IsFresh task r.provider_id (fresh_state r) = record {
        cumulative = refl;
        spent = refl;
        ceiling = a.positive;
        cap = a.cap;
      } in
      record {
        total =
            ap (λ x. x +ℤ r.ceiling_atomic) v.total
            ∙ sym (
                sum_of-insert_new (λ st. st.channel_ceiling) r.provider_id _ acc.provider_states
                  missing);
        unspent =
            sum_of-insert_new (λ st. st.spent_atomic) r.provider_id _ acc.provider_states missing
            ∙ +ℤ-zero _
            ∙ v.unspent;
        bounded = a.fits;
        known = λ k st e. elim (lookup-insert_cases r.provider_id k _ st acc.provider_states e) [
          | inl (same, _) ↦ ground (arith, eq_iff r.provider_id k)
          | inr (_, old) ↦ ground (arith, v.known k st old)
        ];
        fresh = λ k st e. elim (lookup-insert_cases r.provider_id k _ st acc.provider_states e) [
          | inl (same, new) ↦
              subst (λ i. IsFresh task i st) same (subst (IsFresh task r.provider_id) new fresh)
          | inr (_, old) ↦ v.fresh k st old
        ];
      }

  reserve_all-IsReserving :
      (rs : List ChannelReservation) (acc acc' : Reserving)
      → reserve_all task is_registered acc rs ≡ ok acc'
      → IsReserving task acc
      → IsReserving task acc'
  unfolding reserve_all
  reserve_all-IsReserving [] acc acc' e v = subst (IsReserving task) (cc) v
  reserve_all-IsReserving (r ∷ rs) acc acc' e v =
      elim (Option-cases (reservation_error task is_registered acc r)) [
        | inl passed ↦
            reserve_all-IsReserving rs (reserve_one task is_registered acc r) acc' (rw passed at e)
              (reserve_one-IsReserving acc r (accepted acc r passed) v)
        | inr (message, failed) ↦ cc (rw failed at e)
      ]

  start-IsReserving :
      pos 0 ≤ℤ task.budget.total_atomic → IsReserving task (start task is_registered)
  unfolding lookup
  start-IsReserving h = record {
    total = refl;
    unspent = refl;
    bounded = h;
    known = λ k st e. none-of e;
    fresh = λ k st e. none-of e;
  }
    where
      none-of :
          {A : Type 0} {st : ProviderRouteState}
          → ◌≡◌ {A = Option ProviderRouteState} none (some st)
          → A
      none-of e = cc

  -- A fresh channel meets the invariant over an empty ledger.
  fresh-StateFits :
      (k : String) (st : ProviderRouteState) (cap : Option ℤ)
      → pos 0 <ℤ st.channel_ceiling
      → st.spent_atomic ≡ pos 0
      → Within st.channel_ceiling cap
      → Within st.spent_atomic cap
  fresh-StateFits k st none p z h = tt
  fresh-StateFits k st (some c) p z h = ground arith

  opened-StateFits :
      (acc : Reserving) (k : String) (st : ProviderRouteState)
      → IsFresh task k st
      → StateFits task (opened task is_registered acc).ledger k st
  unfolding lookup
  opened-StateFits acc k st f = record {
    nonneg = rw f.spent (omega arith);
    same = f.cumulative ∙ sym f.spent;
    ceiling = rw f.cumulative (omega (arith, f.ceiling));
    in_ledger = sym f.spent;
    capped = fresh-StateFits k st _ f.ceiling f.spent f.cap;
  }

  -- Sound and attributed books, and ceilings within the budget.
  abbrev pub Opens : Orchestrator → Type 0
  Opens o =
      IsSound o
      × IsAttributed o
      × (sum_of (λ st. st.channel_ceiling) o.provider_states ≤ℤ o.task.budget.total_atomic)

  opened-Opens :
      (acc : Reserving)
      → pos 0 ≤ℤ task.budget.total_atomic
      → IsReserving task acc
      → Opens (opened task is_registered acc)
  opened-Opens acc h v = (
    record {
      own_ledger = refl;
      within_budget = h;
      conserved = sym v.unspent;
      each = λ k st e. opened-StateFits acc k st (v.fresh k st e);
    },
    refl,
    subst (λ x. x ≤ℤ task.budget.total_atomic) v.total v.bounded,
  )

  -- Every orchestrator that the constructor builds for a task with a budget of zero or more starts
  -- with sound and fully attributed books, and the channel ceilings that it reserves add up to no
  -- more than the task's budget.
  pub new_orchestrator-IsSound :
      (reservations : List ChannelReservation) (o : Orchestrator)
      → pos 0 ≤ℤ task.budget.total_atomic
      → new_orchestrator task is_registered reservations ≡ ok o
      → Opens o
  unfolding new_orchestrator
  new_orchestrator-IsSound reservations o h e =
      let (acc, reserved, same) =
        >>=-eq-ok (reserve_all task is_registered (start task is_registered) reservations)
          (λ acc. ok (opened task is_registered acc)) e in
      subst Opens (ok-injective same) (
        opened-Opens acc h
          (reserve_all-IsReserving reservations _ acc reserved (start-IsReserving h)))

-- ===== src/Core/Authorize/Invariant.antt =====
-- The invariant of the orchestrator's state, and that every step keeps it.
use canalis.Base.{
  ℕ, String, some, List, [], ◌∷◌, ◌≡◌, refl, ap, ◌∙◌, sym, subst, inl, inr, not, ◌==◌, ◌↔◌, arith,
  if_rule, Option-cases,
}
use canalis.Base.Int.{ℤ, pos, ◌+ℤ◌, ◌≤ℤ◌, ◌<ℤ◌, +ℤ_assoc, +ℤ_right_comm, +ℤ_parts}
use canalis.Base.Dict.{Dict, lookup, insert, lookup-insert, lookup-insert_self, lookup-insert_cases}
use canalis.Base.Result.{ok}
use canalis.Core.Domain.{Task, TaskLedger, PolicyDecision, allowed, rejected}
use canalis.Core.Policy.{or_zero, cap_of, approval, evaluate_spend}
use canalis.Core.Policy.Permits.{Within, Permits, evaluate_spend-Permits, evaluate_spend-approval}
use canalis.Core.Flow.{
  RouteRejectionCode, ProviderRouteState, RouteFlow, RouteSettlementRecord, Orchestrator,
}
use canalis.Providers.Types.{ProviderQuote, ProviderReceipt}
use canalis.Core.Authorize.{
  proposal, Verdict, authorize, settle_decision, refuse, advance, sum_of, fulfil_flow, fail_flow,
  record_immediate_rejection, record_settlement, with_settlement,
}

-- One provider's channel: what was authorized is what was spent, it is in the ledger, and it is
-- within the channel's ceiling and the provider's cap.
pub record StateFits (task : Task) (ledger : TaskLedger) (k : String) (st : ProviderRouteState)
    : Type 0 where
  pub nonneg : pos 0 ≤ℤ st.spent_atomic
  pub same : st.cumulative_authorized ≡ st.spent_atomic
  pub ceiling : st.cumulative_authorized ≤ℤ st.channel_ceiling
  pub in_ledger : or_zero (lookup k ledger.provider_spent_atomic) ≡ st.spent_atomic
  pub capped : Within st.spent_atomic (cap_of task.policy.provider_caps_atomic k)

pub record IsSound (o : Orchestrator) : Type 0 where
  pub own_ledger : o.ledger.task_id ≡ o.task.id
  pub within_budget : o.ledger.spent_atomic ≤ℤ o.task.budget.total_atomic
  pub conserved : o.ledger.spent_atomic ≡ sum_of (λ st. st.spent_atomic) o.provider_states
  pub each :
      (k : String) (st : ProviderRouteState)
      → lookup k o.provider_states ≡ some st
      → StateFits o.task o.ledger k st

-- Replacing the state of a provider moves the sum by the difference.
sum_of-insert :
    (k : String) (old new : ProviderRouteState) (d : Dict ProviderRouteState) (q : ℤ)
    → lookup k d ≡ some old
    → new.spent_atomic ≡ old.spent_atomic +ℤ q
    → sum_of (λ st. st.spent_atomic) (insert k new d) ≡ sum_of (λ st. st.spent_atomic) d +ℤ q
unfolding lookup insert
sum_of-insert k old new [] q e h = cc
sum_of-insert k old new ((j, st) ∷ d) q e h = ground (
  arith,
  h,
  +ℤ_right_comm old.spent_atomic q (sum_of (λ st. st.spent_atomic) d),
  +ℤ_assoc st.spent_atomic (sum_of (λ st. st.spent_atomic) d) q,
  sum_of-insert k old new d q,
)

sum_nonneg : (a b : ℤ) → pos 0 ≤ℤ a → pos 0 <ℤ b → pos 0 ≤ℤ a +ℤ b
sum_nonneg a b h k = omega (arith, +ℤ_parts a b)

-- A change of the flows and the settlements alone keeps the invariant.
pub records-IsSound :
    (o : Orchestrator) (fs : List RouteFlow) (ss : List RouteSettlementRecord)
    → IsSound o
    → IsSound (record o { flows = fs; settlements = ss })
records-IsSound o fs ss v = record {
  own_ledger = v.own_ledger;
  within_budget = v.within_budget;
  conserved = v.conserved;
  each = v.each;
}

module _ (o : Orchestrator) (k r : String) (st : ProviderRouteState) (quote : ProviderQuote)
    (now : ℤ) (found : lookup k o.provider_states ≡ some st) (v : IsSound o)
    (p : Permits (proposal o k st quote now)) where
  granted_state : Orchestrator
  granted_state =
      (settle_decision o k r st quote now (allowed (approval (proposal o k st quote now)))).1

  granted-conserved :
      granted_state.ledger.spent_atomic
      ≡ sum_of (λ st. st.spent_atomic) granted_state.provider_states
  unfolding granted_state settle_decision approval proposal
  granted-conserved =
      ap (λ x. x +ℤ quote.price_atomic) v.conserved
      ∙ sym (
          sum_of-insert k st _ o.provider_states quote.price_atomic found
            (ap (λ x. x +ℤ quote.price_atomic) (v.each k st found).in_ledger))

  granted-same :
      StateFits granted_state.task granted_state.ledger k
        (advance st (approval (proposal o k st quote now)))
  unfolding granted_state settle_decision approval proposal
  granted-same =
      let f = v.each k st found in
      let spent = or_zero (lookup k o.ledger.provider_spent_atomic) in
      record {
        nonneg = sum_nonneg spent quote.price_atomic (rw f.in_ledger f.nonneg) p.positive;
        same = ap (λ x. x +ℤ quote.price_atomic) (f.same ∙ sym f.in_ledger);
        ceiling = p.ceiling;
        in_ledger = rw lookup-insert_self refl;
        capped = p.provider_cap;
      }

  granted-each :
      (j : String) (st' : ProviderRouteState)
      → lookup j granted_state.provider_states ≡ some st'
      → StateFits granted_state.task granted_state.ledger j st'
  unfolding granted_state settle_decision approval proposal
  granted-each j st' e = elim (lookup-insert_cases k j _ st' o.provider_states e) [
    | inl (same_key, new) ↦
        subst (λ i. StateFits granted_state.task granted_state.ledger i st') same_key
          (subst (StateFits granted_state.task granted_state.ledger k) new granted-same)
    | inr (other_key, old) ↦
        let f = v.each j st' old in
        record {
          nonneg = f.nonneg;
          same = f.same;
          ceiling = f.ceiling;
          in_ledger = rw (lookup-insert, other_key) f.in_ledger;
          capped = f.capped;
        }
  ]

  granted-IsSound : IsSound granted_state
  unfolding granted_state settle_decision approval proposal
  granted-IsSound = record {
    own_ledger = v.own_ledger;
    within_budget = p.budget;
    conserved = granted-conserved;
    each = granted-each;
  }

-- The state after an authorizer's decision.
decision-IsSound :
    (o : Orchestrator) (k r : String) (st : ProviderRouteState) (quote : ProviderQuote) (now : ℤ)
    → lookup k o.provider_states ≡ some st
    → IsSound o
    → (d : PolicyDecision) → evaluate_spend (proposal o k st quote now) ≡ d
    → IsSound (settle_decision o k r st quote now d).1
unfolding settle_decision refuse granted_state
decision-IsSound o k r st quote now found v (rejected code message) e =
    records-IsSound o _ o.settlements v
decision-IsSound o k r st quote now found v (allowed a) e =
    subst (λ b. IsSound (settle_decision o k r st quote now (allowed b)).1)
      (sym (evaluate_spend-approval _ a e))
      (granted-IsSound o k r st quote now found v (evaluate_spend-Permits _ a e))

-- Whatever quote a provider with a reserved route presents, the authorizer keeps sound books sound:
-- spending stays within the task budget, each provider stays within its channel ceiling and its
-- cap, and the ledger's total is the sum of what was authorized per provider.
pub authorize-IsSound :
    (o : Orchestrator) (k r : String) (st : ProviderRouteState) (quote : ProviderQuote) (now : ℤ)
    → lookup k o.provider_states ≡ some st
    → IsSound o
    → IsSound (authorize k r st quote now o).1
unfolding authorize refuse
authorize-IsSound o k r st quote now found v =
    if_rule {A = Verdict × Orchestrator} (λ x. IsSound x.1) (not (quote.mint == o.task.budget.mint))
      (λ _. records-IsSound o _ o.settlements v)
      (λ _. decision-IsSound o k r st quote now found v _ refl)

-- The other steps change only the records: they keep the invariant.
pub fulfil_flow-IsSound :
    (i : ℕ) (receipt : ProviderReceipt) (o : Orchestrator)
    → IsSound o
    → IsSound (fulfil_flow i receipt o)
unfolding fulfil_flow
fulfil_flow-IsSound i receipt o v = records-IsSound o _ o.settlements v

pub fail_flow-IsSound :
    (i : ℕ) (message : String) (o : Orchestrator) → IsSound o → IsSound (fail_flow i message o)
unfolding fail_flow
fail_flow-IsSound i message o v = records-IsSound o _ o.settlements v

pub record_immediate_rejection-IsSound :
    (k r : String) (code : RouteRejectionCode) (message : String) (now : ℤ) (o : Orchestrator)
    → IsSound o
    → IsSound (record_immediate_rejection k r code message now o).1
unfolding record_immediate_rejection
record_immediate_rejection-IsSound k r code message now o v = records-IsSound o _ o.settlements v

-- A settlement is accepted exactly for a provider with a reserved route, at an amount from zero up
-- to what has been authorized for that provider; what is then recorded is `with_settlement`.
pub record_settlement_iff :
    (r : RouteSettlementRecord) (o o' : Orchestrator)
    → (record_settlement r o ≡ ok o') ↔ (
        ((st : ProviderRouteState) × (lookup r.provider_id o.provider_states ≡ some st)
          × (pos 0 ≤ℤ r.cumulative_amount)
          × (r.cumulative_amount ≤ℤ st.cumulative_authorized))
        × (o' ≡ with_settlement r o))
unfolding record_settlement
record_settlement_iff r o o' = elim (Option-cases (lookup r.provider_id o.provider_states)) [
  | inl unknown ↦ ground arith
  | inr (st, found) ↦ (
    λ e. ((st, found, ground arith, ground arith), ground arith),
    λ h. let ((st', found', low, high), same) = h in ground (arith, low, high, same, found'),
  )
]

pub record_settlement-IsSound :
    (r : RouteSettlementRecord) (o o' : Orchestrator)
    → record_settlement r o ≡ ok o'
    → IsSound o
    → IsSound o'
unfolding with_settlement
record_settlement-IsSound r o o' e v =
    subst IsSound (sym ((record_settlement_iff r o o').0 e).1) (records-IsSound o _ _ v)

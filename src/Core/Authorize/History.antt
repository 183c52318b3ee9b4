-- ===== src/Core/Authorize/History.antt =====
-- Any interleaving of concurrent calls is a sequence of the steps below: what the orchestrator
-- guarantees after each of them, and that every unit spent is attributed to a flow.
use canalis.Base.{
  ℕ, zero, suc, String, some, List, [], ◌∷◌, ◌++◌, map, ◌≡◌, refl, sym, ap, subst, ◌∙◌, not, ◌==◌,
  arith, get_elem?, modify_at, if_rule,
}
use canalis.Base.Int.{ℤ, pos, ◌+ℤ◌, int_laws, +ℤ_assoc, +ℤ-zero}
use canalis.Base.Dict.{lookup}
use canalis.Base.Result.{ok}
use canalis.Core.Domain.{PolicyDecision, allowed, rejected}
use canalis.Core.Policy.{evaluate_spend, approval}
use canalis.Core.Policy.Permits.{evaluate_spend-approval}
use canalis.Core.Flow.{
  RouteFlowStatus, RouteRejectionCode, RouteFlow, ProviderRouteState, RouteSettlementRecord,
  Orchestrator,
}
use canalis.Providers.Types.{ProviderQuote, ProviderReceipt}
use canalis.Core.Authorize.{
  Verdict, authorize, settle_decision, refuse, rejected_flow, proposal, fulfil, fail, fulfil_flow,
  fail_flow, mark_settled, record_immediate_rejection, record_settlement, with_settlement,
}
use canalis.Core.Authorize.Invariant.{
  IsSound, authorize-IsSound, fulfil_flow-IsSound, fail_flow-IsSound,
  record_immediate_rejection-IsSound, record_settlement-IsSound, record_settlement_iff,
}

-- What a flow has charged to the budget: its quote, unless it was rejected.
abbrev pub charged : RouteFlowStatus → ℤ → ℤ
charged RouteFlowStatus.rejected amount = pos 0
charged _ amount = amount

abbrev pub sum_charged : List RouteFlow → ℤ
sum_charged [] = pos 0
sum_charged (f ∷ fs) = charged f.status f.quoted_amount +ℤ sum_charged fs

-- Every unit of the ledger's total is attributed to a flow.
abbrev pub IsAttributed : Orchestrator → Type 0
IsAttributed o = sum_charged o.flows ≡ o.ledger.spent_atomic

-- One synchronous step of some call. Only an authorized flow is completed.
pub data Step (o o' : Orchestrator) : Type 0 where
  authorizes :
      (k r : String) (st : ProviderRouteState) (quote : ProviderQuote) (now : ℤ)
      → lookup k o.provider_states ≡ some st
      → o' ≡ (authorize k r st quote now o).1
      → Step o o'
  rejects :
      (k r : String) (code : RouteRejectionCode) (message : String) (now : ℤ)
      → o' ≡ (record_immediate_rejection k r code message now o).1
      → Step o o'
  fulfils :
      (i : ℕ) (f : RouteFlow) (receipt : ProviderReceipt)
      → get_elem? o.flows i ≡ some f
      → f.status ≡ RouteFlowStatus.authorized
      → o' ≡ fulfil_flow i receipt o
      → Step o o'
  fails :
      (i : ℕ) (f : RouteFlow) (message : String)
      → get_elem? o.flows i ≡ some f
      → f.status ≡ RouteFlowStatus.authorized
      → o' ≡ fail_flow i message o
      → Step o o'
  settles : (r : RouteSettlementRecord) → record_settlement r o ≡ ok o' → Step o o'

pub data Reach (o : Orchestrator) : Orchestrator → Type 0 where
  here : Reach o o
  next : {o' o'' : Orchestrator} → Reach o o' → Step o' o'' → Reach o o''

Step-IsSound : {o o' : Orchestrator} → Step o o' → IsSound o → IsSound o'
Step-IsSound (authorizes k r st quote now found e) v =
    subst IsSound (sym e) (authorize-IsSound _ k r st quote now found v)
Step-IsSound (rejects k r code message now e) v =
    subst IsSound (sym e) (record_immediate_rejection-IsSound k r code message now _ v)
Step-IsSound (fulfils i f receipt found st e) v =
    subst IsSound (sym e) (fulfil_flow-IsSound i receipt _ v)
Step-IsSound (fails i f message found st e) v =
    subst IsSound (sym e) (fail_flow-IsSound i message _ v)
Step-IsSound {o} {o'} (settles r e) v = record_settlement-IsSound r o o' e v

-- From sound books, however concurrent calls interleave, the books stay sound: the spend is within
-- the task budget, every provider within its channel ceiling and its cap, and the total is the
-- providers' sum.
pub Reach-IsSound : {o o' : Orchestrator} → Reach o o' → IsSound o → IsSound o'
Reach-IsSound here v = v
Reach-IsSound (next r s) v = Step-IsSound s (Reach-IsSound r v)

sum_charged-append :
    (fs : List RouteFlow) (f : RouteFlow)
    → sum_charged (fs ++ f ∷ []) ≡ sum_charged fs +ℤ charged f.status f.quoted_amount
sum_charged-append [] f = omega int_laws
sum_charged-append (g ∷ fs) f =
    rw (sum_charged-append fs f) (sym (+ℤ_assoc (charged g.status g.quoted_amount) _ _))

sum_charged-map :
    (h : RouteFlow → RouteFlow)
    → ((f : RouteFlow)
        → charged (h f).status (h f).quoted_amount ≡ charged f.status f.quoted_amount)
    → (fs : List RouteFlow) → sum_charged (map h fs) ≡ sum_charged fs
sum_charged-map h same [] = refl
sum_charged-map h same (f ∷ fs) = cc (same f, sum_charged-map h same fs)

sum_charged-modify_at :
    (h : RouteFlow → RouteFlow) (i : ℕ) (fs : List RouteFlow) (f : RouteFlow)
    → get_elem? fs i ≡ some f
    → charged (h f).status (h f).quoted_amount ≡ charged f.status f.quoted_amount
    → sum_charged (modify_at i h fs) ≡ sum_charged fs
sum_charged-modify_at h i [] f e same = refl
sum_charged-modify_at h zero (g ∷ fs) f e same =
    ap (λ x. x +ℤ sum_charged fs)
      (subst (λ x. charged (h x).status (h x).quoted_amount ≡ charged x.status x.quoted_amount) (cc)
        same)
sum_charged-modify_at h (suc i) (g ∷ fs) f e same =
    ap (λ x. charged g.status g.quoted_amount +ℤ x) (sum_charged-modify_at h i fs f e same)

decision-IsAttributed :
    (o : Orchestrator) (k r : String) (st : ProviderRouteState) (quote : ProviderQuote) (now : ℤ)
    → IsAttributed o
    → (d : PolicyDecision) → evaluate_spend (proposal o k st quote now) ≡ d
    → IsAttributed (settle_decision o k r st quote now d).1
unfolding settle_decision refuse rejected_flow approval proposal
decision-IsAttributed o k r st quote now v (rejected code message) e =
    sum_charged-append o.flows _ ∙ +ℤ-zero (sum_charged o.flows) ∙ v
decision-IsAttributed o k r st quote now v (allowed a) e =
    sum_charged-append o.flows _
    ∙ ap (λ x. x +ℤ quote.price_atomic) v
    ∙ ap (λ b. b.projected_task_spend)
        (sym (evaluate_spend-approval (proposal o k st quote now) a e))

authorize-IsAttributed :
    (o : Orchestrator) (k r : String) (st : ProviderRouteState) (quote : ProviderQuote) (now : ℤ)
    → IsAttributed o
    → IsAttributed (authorize k r st quote now o).1
unfolding authorize refuse rejected_flow
authorize-IsAttributed o k r st quote now v =
    if_rule {A = Verdict × Orchestrator} (λ x. IsAttributed x.1)
      (not (quote.mint == o.task.budget.mint))
      (λ _. sum_charged-append o.flows _ ∙ +ℤ-zero (sum_charged o.flows) ∙ v)
      (λ _. decision-IsAttributed o k r st quote now v _ refl)

mark_settled-charged :
    (r : RouteSettlementRecord) (f : RouteFlow)
    → charged (mark_settled r f).status (mark_settled r f).quoted_amount
      ≡ charged f.status f.quoted_amount
unfolding mark_settled
mark_settled-charged r f = ground arith

Step-IsAttributed : {o o' : Orchestrator} → Step o o' → IsAttributed o → IsAttributed o'
unfolding fulfil_flow fail_flow record_immediate_rejection with_settlement
Step-IsAttributed (authorizes k r st quote now found e) v =
    subst IsAttributed (sym e) (authorize-IsAttributed _ k r st quote now v)
Step-IsAttributed {o} (rejects k r code message now e) v =
    subst IsAttributed (sym e) (sum_charged-append o.flows _ ∙ +ℤ-zero (sum_charged o.flows) ∙ v)
Step-IsAttributed {o} (fulfils i f receipt found status e) v =
    subst IsAttributed (sym e)
      (sum_charged-modify_at (fulfil receipt) i o.flows f found (rw status refl) ∙ v)
Step-IsAttributed {o} (fails i f message found status e) v =
    subst IsAttributed (sym e)
      (sum_charged-modify_at (fail message) i o.flows f found (rw status refl) ∙ v)
Step-IsAttributed {o} {o'} (settles r e) v =
    subst IsAttributed (sym ((record_settlement_iff r o o').0 e).1)
      (sum_charged-map (mark_settled r) (mark_settled-charged r) o.flows ∙ v)

-- If the flows account for the ledger at first, then however concurrent calls interleave they
-- account for every unit of the ledger: the quotes of the flows that were not rejected add up to
-- the task's spend.
pub Reach-IsAttributed : {o o' : Orchestrator} → Reach o o' → IsAttributed o → IsAttributed o'
Reach-IsAttributed here v = v
Reach-IsAttributed (next r s) v = Step-IsAttributed s (Reach-IsAttributed r v)

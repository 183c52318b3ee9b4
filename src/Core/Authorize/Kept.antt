-- ===== src/Core/Authorize/Kept.antt =====
-- What every history of the orchestrator keeps: its task. And what its payment graph shows.
use canalis.Base.{String, not, if_rule, ◌==◌, ◌≡◌, refl, ap, ◌∙◌}
use canalis.Base.Int.{ℤ, pos, ◌≤ℤ◌, int_laws}
use canalis.Core.Domain.{PolicyDecision, allowed, rejected}
use canalis.Core.Flow.{Orchestrator, ProviderRouteState}
use canalis.Providers.Types.{ProviderQuote}
use canalis.Core.Authorize.{
  Verdict, authorize, settle_decision, refuse, record_immediate_rejection, fulfil_flow, fail_flow,
  with_settlement, get_payment_graph,
}
use canalis.Core.Authorize.Invariant.{IsSound, record_settlement_iff}
use canalis.Core.Authorize.History.{
  Reach, here, next, Step, authorizes, rejects, fulfils, fails, settles,
}

decision-task :
    (o : Orchestrator) (k r : String) (st : ProviderRouteState) (quote : ProviderQuote) (now : ℤ)
    (d : PolicyDecision)
    → (settle_decision o k r st quote now d).1.task ≡ o.task
unfolding settle_decision refuse
decision-task o k r st quote now (rejected code message) = refl
decision-task o k r st quote now (allowed a) = refl

authorize-task :
    (o : Orchestrator) (k r : String) (st : ProviderRouteState) (quote : ProviderQuote) (now : ℤ)
    → (authorize k r st quote now o).1.task ≡ o.task
unfolding authorize refuse
authorize-task o k r st quote now =
    if_rule {A = Verdict × Orchestrator} (λ x. x.1.task ≡ o.task)
      (not (quote.mint == o.task.budget.mint)) (λ _. refl) (λ _. decision-task o k r st quote now _)

Step-task : {o o' : Orchestrator} → Step o o' → o'.task ≡ o.task
unfolding record_immediate_rejection fulfil_flow fail_flow with_settlement
Step-task {o} (authorizes k r st quote now found e) =
    ap (λ x. x.task) e ∙ authorize-task o k r st quote now
Step-task (rejects k r code message now e) = ap (λ x. x.task) e
Step-task (fulfils i f receipt found st e) = ap (λ x. x.task) e
Step-task (fails i f message found st e) = ap (λ x. x.task) e
Step-task {o} {o'} (settles r e) = ap (λ x. x.task) ((record_settlement_iff r o o').0 e).1

pub Reach-task : {o o' : Orchestrator} → Reach o o' → o'.task ≡ o.task
Reach-task here = refl
Reach-task (next r s) = Step-task s ∙ Reach-task r

-- The graph of sound books: the spend is within the budget, and what remains is not negative.
pub get_payment_graph-IsSound :
    (o : Orchestrator)
    → IsSound o
    → let g = get_payment_graph o in
      (g.spent_atomic ≤ℤ g.budget_atomic)
      × (pos 0 ≤ℤ g.remaining_atomic)
      × (g.budget_atomic ≡ o.task.budget.total_atomic)
unfolding get_payment_graph
get_payment_graph-IsSound o v = (v.within_budget, omega (int_laws, v.within_budget), refl)

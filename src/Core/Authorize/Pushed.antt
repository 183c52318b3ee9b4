-- ===== src/Core/Authorize/Pushed.antt =====
-- The flow that a granted authorization has just recorded.
use canalis.Base.{
  String, some, List, [], ◌∷◌, ◌++◌, ◌≡◌, refl, not, ◌==◌, if_rule, length, get_elem?,
}
use canalis.Base.Int.{ℤ}
use canalis.Core.Domain.{PolicyDecision}
use canalis.Core.Policy.{evaluate_spend}
use canalis.Core.Flow.{RouteFlowStatus, RouteFlow, ProviderRouteState, Orchestrator}
use canalis.Providers.Types.{ProviderQuote, PaymentAuthorization}
use canalis.Core.Authorize.{
  Verdict, granted, authorize, settle_decision, refuse, authorized_flow, proposal,
}

-- The last of a list that has just grown.
get_elem?-append_last {ℓ} :
    {A : Type ℓ} (xs : List A) (x : A) → get_elem? (xs ++ x ∷ []) (length xs) ≡ some x
get_elem?-append_last [] x = refl
get_elem?-append_last (y ∷ xs) x = get_elem?-append_last xs x

-- At the place where the next flow of `o` goes, `o'` has an authorized flow.
abbrev pub Pushed : (o o' : Orchestrator) → Type 0
Pushed o o' =
    (f : RouteFlow) × (get_elem? o'.flows (length o.flows) ≡ some f)
    × (f.status ≡ RouteFlowStatus.authorized)

decision-Pushed :
    (o : Orchestrator) (k r : String) (st : ProviderRouteState) (q : ProviderQuote) (now : ℤ)
    (d : PolicyDecision) (a : PaymentAuthorization)
    → (settle_decision o k r st q now d).0 ≡ granted a
    → Pushed o (settle_decision o k r st q now d).1
unfolding settle_decision refuse authorized_flow
decision-Pushed o k r st q now (PolicyDecision.rejected c m) a e = cc
decision-Pushed o k r st q now (PolicyDecision.allowed b) a e =
    (_, get_elem?-append_last o.flows _, refl)

pub authorize-Pushed :
    (o : Orchestrator) (k r : String) (st : ProviderRouteState) (q : ProviderQuote) (now : ℤ)
    (a : PaymentAuthorization)
    → (authorize k r st q now o).0 ≡ granted a
    → Pushed o (authorize k r st q now o).1
unfolding authorize refuse
authorize-Pushed o k r st q now a =
    if_rule {A = Verdict × Orchestrator} (λ x. x.0 ≡ granted a → Pushed o x.1)
      (not (q.mint == o.task.budget.mint)) (λ _ e. cc)
      (λ _. decision-Pushed o k r st q now (evaluate_spend (proposal o k st q now)) a)

-- ===== src/Core/Route/Decided.antt =====
-- What one call of `execute` does to the orchestrator, as a relation, and that it is made of steps.
use canalis.Base.{String, some, ◌≡◌, sym, ap, subst, length}
use canalis.Base.Int.{ℤ}
use canalis.Base.Dict.{lookup}
use canalis.Core.Flow.{RouteFlow, ProviderRouteState, Orchestrator, RouteRejectionCode}
use canalis.Core.Authorize.{
  record_immediate_rejection, Verdict, refused, granted, authorize, fulfil_flow, fail_flow,
}
use canalis.Core.Authorize.Pushed.{Pushed, authorize-Pushed}
use canalis.Core.Authorize.History.{Reach, here, next, authorizes, rejects, fulfils, fails}
use canalis.Providers.Types.{ProviderReceipt, ProviderQuote, PaymentAuthorization}

module _ (o : Orchestrator) (k r : String) (now : ℤ) where
  -- The one decision of the authorizer in this call, on the state object of its provider.
  abbrev pub Decides : Verdict → Orchestrator → Type 0
  Decides v o' =
      (st : ProviderRouteState) × (q : ProviderQuote) × (lookup k o.provider_states ≡ some st)
      × (authorize k r st q now o ≡ (v, o'))

  -- What one call does: nothing, one rejection, or one authorization, whose own flow it then
  -- fulfils or fails, at most once.
  pub data Run (o' : Orchestrator) : Type 0 where
    nothing : o' ≡ o → Run o'
    rejects_at_once :
        (code : RouteRejectionCode) (message : String)
        → o' ≡ (record_immediate_rejection k r code message now o).1
        → Run o'
    refuses : (f : RouteFlow) → Decides (refused f) o' → Run o'
    grants : (a : PaymentAuthorization) → Decides (granted a) o' → Run o'
    then_fulfils :
        (a : PaymentAuthorization) (o1 : Orchestrator) (receipt : ProviderReceipt)
        → Decides (granted a) o1
        → o' ≡ fulfil_flow (length o.flows) receipt o1
        → Run o'
    then_fails :
        (a : PaymentAuthorization) (o1 : Orchestrator) (message : String)
        → Decides (granted a) o1
        → o' ≡ fail_flow (length o.flows) message o1
        → Run o'

  Decides-Reach : (v : Verdict) (o' : Orchestrator) → Decides v o' → Reach o o'
  Decides-Reach v o' (st, q, found, e) =
      next here (authorizes k r st q now found (ap (λ x. x.1) (sym e)))

  Decides-Pushed :
      (a : PaymentAuthorization) (o' : Orchestrator) → Decides (granted a) o' → Pushed o o'
  Decides-Pushed a o' (st, q, found, e) =
      subst (λ x. Pushed o x) (ap (λ x. x.1) e)
        (authorize-Pushed o k r st q now a (ap (λ x. x.0) e))

  -- All of these are steps of the orchestrator.
  pub Run-Reach : (o' : Orchestrator) → Run o' → Reach o o'
  Run-Reach o' (nothing e) = subst (λ x. Reach o x) (sym e) here
  Run-Reach o' (rejects_at_once code message e) = next here (rejects k r code message now e)
  Run-Reach o' (refuses f d) = Decides-Reach (refused f) o' d
  Run-Reach o' (grants a d) = Decides-Reach (granted a) o' d
  Run-Reach o' (then_fulfils a o1 receipt d e) =
      let (f, found, status) = Decides-Pushed a o1 d in
      next (Decides-Reach (granted a) o1 d) (fulfils (length o.flows) f receipt found status e)
  Run-Reach o' (then_fails a o1 message d e) =
      let (f, found, status) = Decides-Pushed a o1 d in
      next (Decides-Reach (granted a) o1 d) (fails (length o.flows) f message found status e)

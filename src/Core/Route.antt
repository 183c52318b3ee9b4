-- ===== src/Core/Route.antt =====
-- packages/core/src/route.ts: `CanalisRouteOrchestrator.execute` and the constructor. The
-- registered adapters act on a world `W` of their own and throw no `RouteRejectedError`, whose
-- class the module does not export; the readings of the clock are arguments.
pub mod Decided
pub mod Reserve
pub mod Runs
use canalis.Base.{true}
use canalis.Base.{ℕ, String, Option, none, some, List, [], ◌∷◌, length, get_elem?}
use canalis.Base.Int.{ℤ}
use canalis.Base.Dict.{Dict, lookup}
use canalis.Base.Action.{Outcome, returned, threw, Thrown, error, own, alien, Action}
use canalis.Core.Flow.{
  RouteRejectionCode, provider_not_found, provider_not_reserved, RouteFlow, Orchestrator,
}
use canalis.Core.Authorize.{
  Verdict, refused, granted, authorize, record_immediate_rejection, fulfil_flow, fail_flow,
}
use canalis.Providers.Types.{
  ProviderRequest, ProviderResult, PaymentAuthorization, PaymentAuthorizer, ProviderAdapter,
}
use canalis.Providers.Execute.{execute_provider_request}

-- The state that one call of `execute` sees: the orchestrator, the adapters' world, and its
-- variable `activeFlow`, as the place of that object in `this.flows`, which only ever grows.
pub record Call (W : Type 0) : Type 0 where
  pub orchestrator : Orchestrator
  pub outside : W
  pub active_flow : Option ℕ

pub data RouteExecutionResult (Out : Type 0) : Type 0 where
  executed : Out → Option RouteFlow → RouteExecutionResult Out
  not_executed : RouteFlow → RouteExecutionResult Out

-- An error of an adapter, as the orchestrator's `catch` receives it.
abbrev pub from_adapter : Thrown ⊥ → Thrown RouteFlow
from_adapter (error message) = error message
from_adapter (own impossible) = absurd impossible
from_adapter (alien b) = alien b

abbrev pub lift_outcome : {A : Type 0} → Outcome ⊥ A → Outcome RouteFlow A
lift_outcome (returned a) = returned a
lift_outcome (threw t) = threw (from_adapter t)

-- A call of an adapter leaves the orchestrator alone.
abbrev pub on_outside : {W A : Type 0} → Action W ⊥ A → Action (Call W) RouteFlow A
on_outside m c = let (r, w) = m c.outside in (lift_outcome r, record c { outside = w })

abbrev pub adapted :
    {W In Out : Type 0} → ProviderAdapter W ⊥ In Out → ProviderAdapter (Call W) RouteFlow In Out
adapted provider = record {
  metadata = provider.metadata;
  quote = λ request. on_outside (provider.quote request);
  fulfill_authorized =
      λ request quote auth. on_outside (provider.fulfill_authorized request quote auth);
}

-- `activeFlow = …` and the `return` or `throw` of the authorizer.
answer :
    {W : Type 0} → Call W → Verdict → Orchestrator → Outcome RouteFlow PaymentAuthorization × Call W
answer c (granted auth) o =
    (returned auth, record c { orchestrator = o; active_flow = some (length c.orchestrator.flows) })
answer c (refused flow) o = (
  threw (own flow),
  record c { orchestrator = o; active_flow = some (length c.orchestrator.flows) },
)

-- The authorizer that `execute` hands to the provider request. The state object is found before;
-- no entry of the map is ever removed.
authorizer :
    {W : Type 0} → (provider_id request_id : String) → ℤ → PaymentAuthorizer (Call W) RouteFlow
unfolding answer
authorizer provider_id request_id now quote c =
    elim (lookup provider_id c.orchestrator.provider_states) [
      | none ↦ (threw (alien true), c)
      | some state ↦
          let (verdict, o) = authorize provider_id request_id state quote now c.orchestrator in
          answer c verdict o
    ]

-- `error instanceof Error ? error.message : "Unknown provider failure"`
abbrev message_of : Thrown RouteFlow → String
message_of (error message) = message
message_of _ = "Unknown provider failure"

-- What `execute` does after the provider request, in its `try` and in its `catch`.
finish :
    {W Out : Type 0}
    → Outcome RouteFlow (ProviderResult Out)
    → Option ℕ
    → Call W
    → Outcome RouteFlow (RouteExecutionResult Out) × Call W
finish (returned result) (some i) c =
    let o = fulfil_flow i result.receipt c.orchestrator in
    (returned (executed result.output (get_elem? o.flows i)), record c { orchestrator = o })
finish (returned result) none c =
    (threw (error "provider completed without a Canalis authorization flow"), c)
finish (threw (own flow)) active c = (returned (not_executed flow), c)
finish (threw (error message)) (some i) c =
    (threw (error message), record c { orchestrator = fail_flow i message c.orchestrator })
finish (threw (alien b)) (some i) c =
    (threw (alien b), record c { orchestrator = fail_flow i (message_of (alien b)) c.orchestrator })
finish (threw t) none c = (threw t, c)

-- A call that ends before any provider is asked.
reject_at_once :
    {W Out : Type 0}
    → (provider_id request_id : String) → RouteRejectionCode
    → (message : String) → (now : ℤ) → Call W
    → Outcome RouteFlow (RouteExecutionResult Out) × Call W
reject_at_once provider_id request_id code message now c =
    let (flow, o) =
      record_immediate_rejection provider_id request_id code message now c.orchestrator in
    (returned (not_executed flow), record c { orchestrator = o })

module _ {W In Out : Type 0} (providers : Dict (ProviderAdapter W ⊥ In Out))
    (hash : Out → String) where
  -- The readings of the clock when the call authorizes or rejects, and when it writes the receipt.
  pub execute :
      (provider_id : String)
      → ProviderRequest In
      → (now receipt_time : ℤ) → Call W
      → Outcome RouteFlow (RouteExecutionResult Out) × Call W
  unfolding reject_at_once
  execute provider_id request now receipt_time c = elim (lookup provider_id providers) [
    | none ↦
        reject_at_once provider_id request.request_id provider_not_found
          "The provider is not registered." now c
    | some provider ↦ elim (lookup provider_id c.orchestrator.provider_states) [
      | none ↦
          reject_at_once provider_id request.request_id provider_not_reserved
            "No task channel ceiling was reserved for this provider." now c
      | some _ ↦
          let (outcome, c') =
            execute_provider_request (adapted provider) request
              (authorizer provider_id request.request_id now) hash receipt_time c in
          finish outcome c'.active_flow c'
    ]
  ]

-- ===== src/Core/Authorize.antt =====
-- packages/core/src/route.ts: the steps of `CanalisRouteOrchestrator` on its own state. Each of
-- them runs without an `await`, so that concurrent calls interleave only between them.
pub mod Invariant
pub mod History
pub mod Kept
pub mod Pushed
pub mod Settled
use canalis.Base.{
  ℕ, String, Option, none, some, List, [], ◌∷◌, ◌++◌, map, Bool, true, false, not, ◌&&◌, ◌==◌,
  length, modify_at, if◌then◌else◌,
}
use canalis.Base.Int.{ℤ, pos, ◌+ℤ◌, ◌-ℤ◌, ltb_ℤ, leb_ℤ}
use canalis.Base.Dict.{Dict, lookup, insert}
use canalis.Base.Text.{template, show_ℤ}
use canalis.Base.Action.{first_error}
use canalis.Base.Result.{Result, ok, err, assert, ◌>>=◌, ◌>>◌}
use canalis.Core.Domain.{Task, SpendProposal, PolicyDecision, Approval}
use canalis.Core.Policy.{evaluate_spend, apply_approved_spend}
use canalis.Core.Flow.{
  RouteFlowStatus, RouteRejectionCode, by_policy, mint_mismatch, RouteFlow, ProviderRouteState,
  RouteSettlementRecord, TaskPaymentGraph, Orchestrator,
}
use canalis.Providers.Types.{ProviderQuote, PaymentAuthorization, ProviderReceipt}
use canalis.Providers.Execute.{protocol_name}

-- The flow that `pushRejectedFlow` records.
rejected_flow :
    Orchestrator
    → (provider_id request_id : String) → (quoted previous next : ℤ) → RouteRejectionCode
    → (message : String) → (now : ℤ) → RouteFlow
rejected_flow o provider_id request_id quoted previous next code message now = record {
  id = template (
      o.task.id
      ∷ ":"
      ∷ provider_id
      ∷ ":"
      ∷ request_id
      ∷ ":rejected:"
      ∷ show_ℤ (pos (length o.flows))
      ∷ []);
  task_id = o.task.id;
  provider_id = provider_id;
  request_id = request_id;
  status = RouteFlowStatus.rejected;
  quoted_amount = quoted;
  previous_cumulative = previous;
  next_cumulative = next;
  rejection_code = some code;
  rejection_message = some message;
  authorization_id = none;
  payment_reference = none;
  receipt = none;
  error_message = none;
  settlement_signature = none;
  created_at = now;
}

-- `this.flows.push(flow)`
abbrev push_flow : RouteFlow → Orchestrator → Orchestrator
push_flow flow o = record o { flows = o.flows ++ flow ∷ [] }

-- `recordImmediateRejection`
pub record_immediate_rejection :
    (provider_id request_id : String)
    → RouteRejectionCode
    → (message : String) → (now : ℤ) → Orchestrator
    → RouteFlow × Orchestrator
unfolding rejected_flow
record_immediate_rejection provider_id request_id code message now o =
    let flow = rejected_flow o provider_id request_id (pos 0) (pos 0) (pos 0) code message now in
    (flow, push_flow flow o)

-- `quote.protocolMetadata?.network`
abbrev network_of : ProviderQuote → Option String
network_of quote = elim (quote.protocol_metadata) [ none ↦ none | some m ↦ lookup "network" m ]

-- The proposal that the authorizer puts to the policy.
pub proposal :
    Orchestrator → String → ProviderRouteState → ProviderQuote → (now : ℤ) → SpendProposal
proposal o provider_id state quote now = record {
  task = o.task;
  ledger = o.ledger;
  provider_id = provider_id;
  quoted_amount = quote.price_atomic;
  current_cumulative = state.cumulative_authorized;
  next_cumulative = state.cumulative_authorized +ℤ quote.price_atomic;
  channel_ceiling = state.channel_ceiling;
  now = now;
  mint = some quote.mint;
  network = network_of quote;
  protocol = some (protocol_name quote.protocol);
}

-- What the authorizer answers: the flow of a `RouteRejectedError`, or an authorization.
pub data Verdict : Type 0 where
  refused : RouteFlow → Verdict
  granted : PaymentAuthorization → Verdict

-- `state.cumulativeAuthorizedAtomic = …; state.spentAtomic = …;`, seen through the map.
abbrev advance : ProviderRouteState → Approval → ProviderRouteState
advance state a = record state {
  cumulative_authorized = a.next_cumulative;
  spent_atomic = a.projected_provider_spend;
}

abbrev authorization_id_of : Orchestrator → String → String → String
authorization_id_of o provider_id request_id =
    template (o.task.id ∷ ":" ∷ provider_id ∷ ":" ∷ request_id ∷ [])

abbrev payment_reference_of : Orchestrator → String → ℤ → String
payment_reference_of o provider_id cumulative =
    template ("canalis:" ∷ o.task.id ∷ ":" ∷ provider_id ∷ ":" ∷ show_ℤ cumulative ∷ [])

authorized_flow :
    Orchestrator
    → (provider_id request_id : String) → (previous : ℤ) → ProviderQuote
    → Approval
    → (now : ℤ) → RouteFlow
authorized_flow o provider_id request_id previous quote a now = record {
  id = authorization_id_of o provider_id request_id;
  task_id = o.task.id;
  provider_id = provider_id;
  request_id = request_id;
  status = RouteFlowStatus.authorized;
  quoted_amount = quote.price_atomic;
  previous_cumulative = previous;
  next_cumulative = a.next_cumulative;
  rejection_code = none;
  rejection_message = none;
  authorization_id = some (authorization_id_of o provider_id request_id);
  payment_reference = some (payment_reference_of o provider_id a.next_cumulative);
  receipt = none;
  error_message = none;
  settlement_signature = none;
  created_at = now;
}

authorization_for :
    Orchestrator
    → (provider_id request_id : String) → ProviderQuote
    → Approval
    → PaymentAuthorization
authorization_for o provider_id request_id quote a = record {
  authorization_id = authorization_id_of o provider_id request_id;
  provider_id = provider_id;
  request_id = request_id;
  mint = quote.mint;
  amount_atomic = quote.price_atomic;
  protocol = quote.protocol;
  payment_reference = some (payment_reference_of o provider_id a.next_cumulative);
}

-- A refusal of the authorizer: the rejected flow is recorded and thrown.
refuse :
    Orchestrator
    → (provider_id request_id : String) → ProviderRouteState
    → ProviderQuote
    → RouteRejectionCode
    → (message : String) → (now : ℤ) → Verdict × Orchestrator
refuse o provider_id request_id state quote code message now =
    let flow =
      rejected_flow o provider_id request_id quote.price_atomic state.cumulative_authorized
        (state.cumulative_authorized +ℤ quote.price_atomic) code message now in
    (refused flow, push_flow flow o)

-- What the authorizer does once `evaluateSpend` has decided. `applyApprovedSpend` does not throw
-- at an approval.
settle_decision :
    Orchestrator
    → (provider_id request_id : String) → ProviderRouteState
    → ProviderQuote
    → (now : ℤ) → PolicyDecision
    → Verdict × Orchestrator
unfolding refuse authorized_flow authorization_for apply_approved_spend
settle_decision o provider_id request_id state quote now (PolicyDecision.rejected code message) =
    refuse o provider_id request_id state quote (by_policy code) message now
settle_decision o provider_id request_id state quote now (PolicyDecision.allowed a) =
    let flow = authorized_flow o provider_id request_id state.cumulative_authorized quote a now in
    (
      granted (authorization_for o provider_id request_id quote a),
      record o {
        ledger = elim (apply_approved_spend o.ledger provider_id (PolicyDecision.allowed a)) [
          | some ledger ↦ ledger
          | none ↦ o.ledger
        ];
        provider_states = insert provider_id (advance state a) o.provider_states;
        flows = o.flows ++ flow ∷ [];
      },
    )

-- The body of `authorizer.authorize`, for the state object of the provider.
pub authorize :
    (provider_id request_id : String)
    → ProviderRouteState
    → ProviderQuote
    → (now : ℤ) → Orchestrator
    → Verdict × Orchestrator
authorize provider_id request_id state quote now o =
    if not (quote.mint == o.task.budget.mint)
    then refuse o provider_id request_id state quote mint_mismatch
        "The provider quote mint does not match the task budget mint." now
    else settle_decision o provider_id request_id state quote now
        (evaluate_spend (proposal o provider_id state quote now))

-- `activeFlow.status = "fulfilled"; activeFlow.receipt = result.receipt;`
abbrev pub fulfil : ProviderReceipt → RouteFlow → RouteFlow
fulfil receipt flow = record flow { status = RouteFlowStatus.fulfilled; receipt = some receipt }

-- `activeFlow.status = "failed"; activeFlow.errorMessage = …;`
abbrev pub fail : String → RouteFlow → RouteFlow
fail message flow = record flow { status = RouteFlowStatus.failed; error_message = some message }

pub fulfil_flow : ℕ → ProviderReceipt → Orchestrator → Orchestrator
fulfil_flow i receipt o = record o { flows = modify_at i (fulfil receipt) o.flows }

pub fail_flow : ℕ → String → Orchestrator → Orchestrator
fail_flow i message o = record o { flows = modify_at i (fail message) o.flows }

abbrev pub is_fulfilled : RouteFlowStatus → Bool
is_fulfilled RouteFlowStatus.fulfilled = true
is_fulfilled _ = false

-- One round of the loop of `recordSettlement`.
pub mark_settled : RouteSettlementRecord → RouteFlow → RouteFlow
mark_settled r flow =
    if (flow.provider_id == r.provider_id)
      && (is_fulfilled flow.status && leb_ℤ flow.next_cumulative r.cumulative_amount)
    then record flow { settlement_signature = some r.transaction_signature }
    else flow

-- The state after an accepted settlement.
pub with_settlement : RouteSettlementRecord → Orchestrator → Orchestrator
with_settlement r o = record o {
  settlements = o.settlements ++ r ∷ [];
  flows = map (mark_settled r) o.flows;
}

pub record_settlement : RouteSettlementRecord → Orchestrator → Result Orchestrator
record_settlement r o = elim (lookup r.provider_id o.provider_states) [
  | none ↦ err (template ("cannot record settlement for unknown route: " ∷ r.provider_id ∷ []))
  | some state ↦ do
    assert (
        first_error (
          (ltb_ℤ r.cumulative_amount (pos 0), "settlement cumulative amount must not be negative")
          ∷ (
            ltb_ℤ state.cumulative_authorized r.cumulative_amount,
            "settlement cannot exceed cumulative authorized spend",
          )
          ∷ []))
    ok (with_settlement r o)
]

-- The sum of one amount over the provider states.
abbrev pub sum_of : (ProviderRouteState → ℤ) → Dict ProviderRouteState → ℤ
sum_of amount [] = pos 0
sum_of amount ((_, state) ∷ states) = amount state +ℤ sum_of amount states

-- `providers.reduce((sum, state) => sum + state.channelCeilingAtomic, 0n)`
abbrev reduce_ceilings : ℤ → List ProviderRouteState → ℤ
reduce_ceilings sum [] = sum
reduce_ceilings sum (state ∷ states) = reduce_ceilings (sum +ℤ state.channel_ceiling) states

pub get_payment_graph : Orchestrator → TaskPaymentGraph
get_payment_graph o =
    let states : List ProviderRouteState = map (λ e. e.1) o.provider_states in
    record {
      task_id = o.task.id;
      mint = o.task.budget.mint;
      budget_atomic = o.task.budget.total_atomic;
      spent_atomic = o.ledger.spent_atomic;
      remaining_atomic = o.task.budget.total_atomic -ℤ o.ledger.spent_atomic;
      reserved_ceiling = reduce_ceilings (pos 0) states;
      providers = states;
      flows = o.flows;
      settlements = o.settlements;
    }

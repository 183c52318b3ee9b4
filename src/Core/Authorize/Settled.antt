-- ===== src/Core/Authorize/Settled.antt =====
-- What `recordSettlement` accepts, and what it then records.
use canalis.Base.{
  List, [], ◌∷◌, ◌++◌, map, some, true, subst, ◌≡◌, refl, ap, sym, ◌∙◌, ◌⊎◌, ◌↔◌, arith, eq_iff,
}
use canalis.Base.Int.{pos, ◌≤ℤ◌}
use canalis.Base.Dict.{lookup}
use canalis.Base.Result.{ok}
use canalis.Core.Flow.{
  RouteFlowStatus, ProviderRouteState, RouteFlow, RouteSettlementRecord, Orchestrator,
}
use canalis.Core.Authorize.{mark_settled, record_settlement, with_settlement, is_fulfilled}
use canalis.Core.Authorize.Invariant.{record_settlement_iff}

-- The settlement pays for the flow.
abbrev pub Covers : RouteSettlementRecord → RouteFlow → Type 0
Covers r f =
    (f.provider_id ≡ r.provider_id)
    × (f.status ≡ RouteFlowStatus.fulfilled)
    × (f.next_cumulative ≤ℤ r.cumulative_amount)

-- Each flow that is paid for gets the signature of the settlement, and no other changes.
abbrev pub Stamped : RouteSettlementRecord → RouteFlow → RouteFlow → Type 0
Stamped r f g =
    (Covers r f × (g ≡ record f { settlement_signature = some r.transaction_signature }))
    ⊎ ((¬ Covers r f) × (g ≡ f))

abbrev pub AllStamped : RouteSettlementRecord → List RouteFlow → List RouteFlow → Type 0
AllStamped r [] [] = Unit {0}
AllStamped r (f ∷ fs) (g ∷ gs) = Stamped r f g × AllStamped r fs gs
AllStamped r _ _ = ⊥

pub record Settles (r : RouteSettlementRecord) (o o' : Orchestrator) : Type 0 where
  pub appended : o'.settlements ≡ o.settlements ++ r ∷ []
  pub stamped : AllStamped r o.flows o'.flows
  pub task : o'.task ≡ o.task
  pub ledger : o'.ledger ≡ o.ledger
  pub states : o'.provider_states ≡ o.provider_states

is_fulfilled_iff : (s : RouteFlowStatus) → (is_fulfilled s ≡ true) ↔ (s ≡ RouteFlowStatus.fulfilled)
is_fulfilled_iff RouteFlowStatus.fulfilled = (λ _. refl, λ _. refl)
is_fulfilled_iff RouteFlowStatus.authorized = ground arith
is_fulfilled_iff RouteFlowStatus.rejected = ground arith
is_fulfilled_iff RouteFlowStatus.failed = ground arith

mark_settled-Stamped : (r : RouteSettlementRecord) (f : RouteFlow) → Stamped r f (mark_settled r f)
unfolding mark_settled
mark_settled-Stamped r f =
    ground (arith, eq_iff f.provider_id r.provider_id, is_fulfilled_iff f.status)

-- A flow is stamped in one way.
Stamped-unique :
    (r : RouteSettlementRecord) (f g : RouteFlow) → Stamped r f g → g ≡ mark_settled r f
unfolding mark_settled
Stamped-unique r f g h =
    ground (arith, h, eq_iff f.provider_id r.provider_id, is_fulfilled_iff f.status)

map-AllStamped :
    (r : RouteSettlementRecord) (fs : List RouteFlow) → AllStamped r fs (map (mark_settled r) fs)
map-AllStamped r [] = tt
map-AllStamped r (f ∷ fs) = (mark_settled-Stamped r f, map-AllStamped r fs)

AllStamped-unique :
    (r : RouteSettlementRecord) (fs gs : List RouteFlow)
    → AllStamped r fs gs
    → gs ≡ map (mark_settled r) fs
AllStamped-unique r [] [] h = refl
AllStamped-unique r [] (g ∷ gs) h = absurd h
AllStamped-unique r (f ∷ fs) [] h = absurd h
AllStamped-unique r (f ∷ fs) (g ∷ gs) (h, hs) =
    ap (λ x. x ∷ gs) (Stamped-unique r f g h)
    ∙ ap (λ xs. mark_settled r f ∷ xs) (AllStamped-unique r fs gs hs)

with_settlement-Settles :
    (r : RouteSettlementRecord) (o : Orchestrator) → Settles r o (with_settlement r o)
unfolding with_settlement
with_settlement-Settles r o = record {
  appended = refl;
  stamped = map-AllStamped r o.flows;
  task = refl;
  ledger = refl;
  states = refl;
}

Settles-unique :
    (r : RouteSettlementRecord) (o o' : Orchestrator) → Settles r o o' → o' ≡ with_settlement r o
unfolding with_settlement
Settles-unique r o o' h =
    cc (h.appended, h.task, h.ledger, h.states, AllStamped-unique r o.flows o'.flows h.stamped)

-- A settlement is accepted exactly for a provider with a reserved route, at an amount from zero up
-- to what was authorized to it. It is then appended to the settlements; the fulfilled flows of its
-- provider up to its amount get its signature, and nothing else changes.
pub record_settlement-Settles_iff :
    (r : RouteSettlementRecord) (o o' : Orchestrator)
    → (record_settlement r o ≡ ok o') ↔ (
        ((state : ProviderRouteState) × (lookup r.provider_id o.provider_states ≡ some state)
          × (pos 0 ≤ℤ r.cumulative_amount)
          × (r.cumulative_amount ≤ℤ state.cumulative_authorized))
        × Settles r o o')
record_settlement-Settles_iff r o o' =
    let (there, back) = record_settlement_iff r o o' in
    (
      λ e.
          ((there e).0, subst (λ x. Settles r o x) (sym (there e).1) (with_settlement-Settles r o)),
      λ h. back (h.0, Settles-unique r o o' h.1),
    )

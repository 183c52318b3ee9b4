-- ===== src/Core/Flow.antt =====
-- packages/core/src/route.ts, the types: flows, provider states, settlements, the payment graph,
-- and the fields of `CanalisRouteOrchestrator`.
use canalis.Base.{String, Option, List}
use canalis.Base.Int.{ℤ}
use canalis.Base.Dict.{Dict}
use canalis.Core.Domain.{Task, TaskLedger, PolicyRejectionCode}
use canalis.Providers.Types.{ProviderReceipt}

pub record ChannelReservation : Type 0 where
  pub provider_id : String
  pub ceiling_atomic : ℤ

pub data RouteFlowStatus : Type 0 where
  authorized fulfilled rejected failed : RouteFlowStatus

pub data RouteRejectionCode : Type 0 where
  by_policy : PolicyRejectionCode → RouteRejectionCode
  provider_not_found provider_not_reserved mint_mismatch : RouteRejectionCode

pub record RouteFlow : Type 0 where
  pub id : String
  pub task_id : String
  pub provider_id : String
  pub request_id : String
  pub status : RouteFlowStatus
  pub quoted_amount : ℤ
  pub previous_cumulative : ℤ
  pub next_cumulative : ℤ
  pub rejection_code : Option RouteRejectionCode
  pub rejection_message : Option String
  pub authorization_id : Option String
  pub payment_reference : Option String
  pub receipt : Option ProviderReceipt
  pub error_message : Option String
  pub settlement_signature : Option String
  pub created_at : ℤ

pub record ProviderRouteState : Type 0 where
  pub provider_id : String
  pub channel_ceiling : ℤ
  pub cumulative_authorized : ℤ
  pub spent_atomic : ℤ

pub record RouteSettlementRecord : Type 0 where
  pub provider_id : String
  pub cumulative_amount : ℤ
  pub transaction_signature : String

pub record TaskPaymentGraph : Type 0 where
  pub task_id : String
  pub mint : String
  pub budget_atomic : ℤ
  pub spent_atomic : ℤ
  pub remaining_atomic : ℤ
  pub reserved_ceiling : ℤ
  pub providers : List ProviderRouteState
  pub flows : List RouteFlow
  pub settlements : List RouteSettlementRecord

-- The fields of the orchestrator that it changes, and its task. The registered adapters and the
-- clock are arguments of the methods.
pub record Orchestrator : Type 0 where
  pub task : Task
  pub ledger : TaskLedger
  pub provider_states : Dict ProviderRouteState
  pub flows : List RouteFlow
  pub settlements : List RouteSettlementRecord

-- ===== src/Core/Domain.antt =====
-- packages/core/src/domain.ts: tasks, policies, ledgers, proposals and decisions.
-- A bigint is a `ℤ`, an optional field an `Option`, a record of bigints a `Dict ℤ`; the values of
-- `overrides`, which the source types as unknown, stand as texts.
use canalis.Base.{ℕ, String, Option, List}
use canalis.Base.Int.{ℤ}
use canalis.Base.Dict.{Dict}

pub data TaskStatus : Type 0 where
  draft active completed cancelled archived : TaskStatus

pub record Budget : Type 0 where
  pub mint : String
  pub total_atomic : ℤ

pub record Policy : Type 0 where
  pub allowed_provider_ids : List String
  pub blocked_provider_ids : Option (List String)
  pub max_per_call_atomic : Option ℤ
  pub provider_caps_atomic : Option (Dict ℤ)
  pub allowed_networks : Option (List String)
  pub allowed_mints : Option (List String)
  pub allowed_protocols : Option (List String)
  pub source_policy_id : Option String
  pub source_policy_version : Option ℕ
  pub source_policy_name : Option String
  pub overrides : Option (Dict String)

pub record Task : Type 0 where
  pub id : String
  pub owner : String
  pub agent_id : String
  pub budget : Budget
  pub policy : Policy
  pub status : TaskStatus
  pub created_at : ℤ
  pub expires_at : ℤ

pub record TaskLedger : Type 0 where
  pub task_id : String
  pub spent_atomic : ℤ
  pub provider_spent_atomic : Dict ℤ

pub record SpendProposal : Type 0 where
  pub task : Task
  pub ledger : TaskLedger
  pub provider_id : String
  pub quoted_amount : ℤ
  pub current_cumulative : ℤ
  pub next_cumulative : ℤ
  pub channel_ceiling : ℤ
  pub now : ℤ
  pub mint : Option String
  pub network : Option String
  pub protocol : Option String

pub data PolicyRejectionCode : Type 0 where
  task_not_active task_expired invalid_amount provider_not_allowed provider_blocked
        per_call_cap_exceeded network_not_allowed mint_not_allowed protocol_not_allowed
        non_monotonic_voucher voucher_delta_mismatch channel_ceiling_exceeded provider_cap_exceeded
        task_budget_exceeded ledger_task_mismatch :
      PolicyRejectionCode

pub record Approval : Type 0 where
  pub amount : ℤ
  pub projected_task_spend : ℤ
  pub projected_provider_spend : ℤ
  pub next_cumulative : ℤ

pub data PolicyDecision : Type 0 where
  allowed : Approval → PolicyDecision
  rejected : PolicyRejectionCode → String → PolicyDecision

-- ===== src/Application/Details.antt =====
-- packages/application/src/service.ts: `requireTask` and `getTask`, over any repository, with the
-- repository's interface of repository.ts. The numbers of the returned object are not yet printed.
pub mod Settled
mod Tests
use canalis.Base.{
  ℕ, suc, ◌+◌, ◌*◌, String, Option, none, some, List, [], ◌∷◌, Bool, true, false, not, ◌&&◌, ◌||◌,
  ltb, eqb, length, ◌==◌, is_empty, if◌then◌else◌, map,
}
use canalis.Base.Int.{ℤ, pos, ◌+ℤ◌, ◌-ℤ◌}
use canalis.Base.Dict.{Dict, lookup}
use canalis.Base.Text.{template, trim}
use canalis.Base.Action.{
  Action, Outcome, returned, threw, Thrown, error, own, alien, ◌>>=◌, ◌>>◌, pure, throw, of_result,
}
use canalis.Application.Errors.{
  ApplicationErrorCode, ApplicationError, validation_error, task_not_found,
  provider_mode_unsupported, task_already_executed, live_channels_not_open,
  provider_execution_failed,
}
use canalis.Application.Tasks.{
  ProviderMode, deterministic, x402, mpp, PersistedTask, PersistedChannel, ChannelStatus, opened,
  distributed, recovered,
}
use canalis.Core.Domain.{TaskStatus, active, completed}
use canalis.Core.Policy.{is_active}
use canalis.Core.Flow.{
  ChannelReservation, ProviderRouteState, RouteSettlementRecord, RouteFlow, TaskPaymentGraph,
  Orchestrator,
}
use canalis.Core.Authorize.{get_payment_graph}
use canalis.Core.Route.{Call, execute}
use canalis.Core.Route.Reserve.{new_orchestrator}
use canalis.Providers.Types.{ProviderRequest, ProviderAdapter}
use canalis.Providers.Types

-- What the repository does for `executeTask`; its calls may reject.
pub record CanalisRepository (W : Type 0) : Type 0 where
  pub get_task : String → Action W ApplicationError (Option PersistedTask)
  pub get_channels : String → Action W ApplicationError (List PersistedChannel)
  pub get_flows : String → Action W ApplicationError (List RouteFlow)
  pub get_settlements : String → Action W ApplicationError (List RouteSettlementRecord)
  pub save_execution :
      String → TaskPaymentGraph → TaskStatus → ℤ → Action W ApplicationError (Unit {0})

abbrev pub refuse : ApplicationErrorCode → String → ℕ → Thrown ApplicationError
refuse c message status =
    own (record { code = c; message = message; status = status; details = none })

-- `channels.reduce(...)`, from the left.
abbrev pub total_of : (PersistedChannel → ℤ) → ℤ → List PersistedChannel → ℤ
total_of amount sum [] = sum
total_of amount sum (c ∷ cs) = total_of amount (sum +ℤ amount c) cs

abbrev pub is_terminal : ChannelStatus → Bool
is_terminal distributed = true
is_terminal recovered = true
is_terminal _ = false

abbrev pub terminal_channels : List PersistedChannel → ℕ
terminal_channels [] = 0
terminal_channels (c ∷ cs) =
    let rest = terminal_channels cs in if is_terminal c.status then suc rest else rest

pub data SettlementStatus : Type 0 where
  finalized : SettlementStatus
  partially_finalized : SettlementStatus
  awaiting_onchain_finalization : SettlementStatus

unfoldable pub settlement_status :
    List PersistedChannel → List RouteSettlementRecord → SettlementStatus
settlement_status channels settlements =
    let ended = terminal_channels channels in
    if ltb 0 (length channels) && eqb ended (length channels)
    then finalized
    else if ltb 0 ended || ltb 0 (length settlements)
    then partially_finalized
    else awaiting_onchain_finalization

abbrev pub state_of : PersistedChannel → ProviderRouteState
state_of c = record {
  provider_id = c.provider_id;
  channel_ceiling = c.ceiling_atomic;
  cumulative_authorized = c.cumulative_authorized_atomic;
  spent_atomic = c.spent_atomic;
}

unfoldable pub graph_of :
    PersistedTask
    → List PersistedChannel
    → List RouteFlow
    → List RouteSettlementRecord
    → TaskPaymentGraph
graph_of task channels flows settlements =
    let spent = total_of (λ c. c.spent_atomic) (pos 0) channels in
    record {
      task_id = task.task.id;
      mint = task.task.budget.mint;
      budget_atomic = task.task.budget.total_atomic;
      spent_atomic = spent;
      remaining_atomic = task.task.budget.total_atomic -ℤ spent;
      reserved_ceiling = total_of (λ c. c.ceiling_atomic) (pos 0) channels;
      providers = map state_of channels;
      flows = flows;
      settlements = settlements;
    }

-- What `getTask` returns, with its numbers not yet printed.
pub record TaskDetail : Type 0 where
  pub task : PersistedTask
  pub graph : TaskPaymentGraph
  pub channels : List PersistedChannel
  pub settlement : SettlementStatus

module _ {W : Type 0} (repository : CanalisRepository W) where
  abbrev pub found : Option PersistedTask → Action W ApplicationError PersistedTask
  found none = throw (refuse task_not_found "Task not found." 404)
  found (some task) = pure task

  abbrev pub require_task : String → Action W ApplicationError PersistedTask
  require_task task_id =
      let normalized = trim task_id in
      if is_empty normalized
      then throw (refuse validation_error "Task id is required." 400)
      else repository.get_task normalized >>= found

  unfoldable pub get_task : String → Action W ApplicationError TaskDetail
  get_task task_id = require_task task_id >>= λ task.
      repository.get_channels task_id >>= λ channels. repository.get_flows task_id >>= λ flows.
      repository.get_settlements task_id >>= λ settlements. pure (record {
        task = task;
        graph = record (graph_of task channels flows settlements) { task_id = task_id };
        channels = channels;
        settlement = settlement_status channels settlements;
      })

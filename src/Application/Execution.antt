-- ===== src/Application/Execution.antt =====
-- packages/application/src/service.ts: `executeTask` over any repository and any demonstration
-- providers. The orchestrator is that of Core/Route; the readings of the clock are an
-- argument, numbered in the order in which they are taken.
pub mod Kept
pub mod Run
pub mod Saved
mod Tests
use canalis.Base.{
  ℕ, suc, ◌+◌, ◌*◌, String, Option, none, some, List, [], ◌∷◌, Bool, true, false, not, ◌&&◌, ◌||◌,
  ltb, eqb, length, ◌==◌, is_empty, if◌then◌else◌, map,
}
use canalis.Base.Int.{ℤ, pos, ◌+ℤ◌, ◌-ℤ◌}
use canalis.Base.Dict.{Dict, lookup}
use canalis.Base.Text.{template, trim}
use canalis.Base.Action.{
  Action, Outcome, returned, threw, Thrown, error, own, alien, ◌>>=◌, ◌>>◌, pure, throw, of_result,
}
use canalis.Application.Errors.{
  ApplicationErrorCode, ApplicationError, validation_error, task_not_found,
  provider_mode_unsupported, task_already_executed, live_channels_not_open,
  provider_execution_failed,
}
use canalis.Application.Tasks.{
  ProviderMode, deterministic, x402, mpp, PersistedTask, PersistedChannel, ChannelStatus, opened,
  distributed, recovered,
}
use canalis.Core.Domain.{TaskStatus, active, completed}
use canalis.Core.Policy.{is_active}
use canalis.Core.Flow.{
  ChannelReservation, ProviderRouteState, RouteSettlementRecord, RouteFlow, TaskPaymentGraph,
  Orchestrator,
}
use canalis.Core.Authorize.{get_payment_graph}
use canalis.Core.Route.{Call, execute}
use canalis.Core.Route.Reserve.{new_orchestrator}
use canalis.Providers.Types.{ProviderRequest, ProviderAdapter}
use canalis.Providers.Types
use canalis.Application.Details.{CanalisRepository, TaskDetail, refuse, require_task, get_task}

pub data RequestInput : Type 0 where
  query : String → RequestInput
  key : String → RequestInput
  prompt : String → RequestInput

abbrev pub deterministic_request : String → ProviderRequest RequestInput
deterministic_request provider_id =
    if provider_id == "search"
    then record { request_id = "search-1"; input = query "Solana payment-channel agent commerce" }
    else if provider_id == "data"
    then record { request_id = "data-1"; input = key "agent-service-latency" }
    else record {
      request_id = "inference-1";
      input = prompt "Synthesize the purchased evidence into a short brief";
    }

-- What the live providers are told of the chain.
pub record Chain : Type 0 where
  pub live_provider_address : String → String
  pub network : String

abbrev pub live_provider :
    {W Out : Type 0}
    → Chain
    → (mint : String) → (provider_id : String) → ProviderAdapter W ⊥ RequestInput Out
    → ProviderAdapter W ⊥ RequestInput Out
live_provider chain mint provider_id provider = record {
  metadata = record provider.metadata {
    payee = chain.live_provider_address provider_id;
    protocol = Types.x402;
    description = template (
        provider.metadata.description ∷ " Metered through a live Solana devnet payment channel."
        ∷ []);
  };
  quote = λ request. provider.quote request >>= λ quote. pure (record quote {
    mint = mint;
    protocol = Types.x402;
    protocol_metadata = some (("scheme", "upto") ∷ ("network", chain.network) ∷ []);
  });
  fulfill_authorized = provider.fulfill_authorized;
}

abbrev pub live_providers :
    {W Out : Type 0}
    → Chain
    → (mint : String) → Dict (ProviderAdapter W ⊥ RequestInput Out)
    → Dict (ProviderAdapter W ⊥ RequestInput Out)
live_providers chain mint [] = []
live_providers chain mint ((id, provider) ∷ rest) =
    (id, live_provider chain mint id provider) ∷ live_providers chain mint rest

abbrev pub is_mpp : ProviderMode → Bool
is_mpp mpp = true
is_mpp _ = false

abbrev pub is_x402 : ProviderMode → Bool
is_x402 x402 = true
is_x402 _ = false

abbrev pub is_opened : ChannelStatus → Bool
is_opened opened = true
is_opened _ = false

-- The providers of the channels that are not open, joined by commas.
abbrev pub unopened : List PersistedChannel → List String
unopened [] = []
unopened (c ∷ cs) =
    let rest = unopened cs in if is_opened c.status then rest else c.provider_id ∷ rest

abbrev pub joined : List String → String
joined [] = ""
joined (x ∷ []) = x
joined (x ∷ y ∷ rest) = template (x ∷ ", " ∷ joined (y ∷ rest) ∷ [])

abbrev pub is_some : {A : Type 0} → Option A → Bool
is_some none = false
is_some (some _) = true

abbrev pub is_nil {ℓ} : {A : Type ℓ} → List A → Bool
is_nil [] = true
is_nil (_ ∷ _) = false

abbrev pub reservations_of : List PersistedChannel → List ChannelReservation
reservations_of =
    map (λ c. record { provider_id = c.provider_id; ceiling_atomic = c.ceiling_atomic })

-- The errors of a task that is not to be executed, before its flows are read and after.
abbrev pub task_refusal : PersistedTask → Option (Thrown ApplicationError)
task_refusal task =
    if is_mpp task.mode
    then some (
        refuse provider_mode_unsupported
          "Task mode mpp is not executable by the current Canalis runner." 409)
    else if is_active task.task.status
    then none
    else some (refuse task_already_executed "This task is not active and cannot be executed." 409)

abbrev pub flows_refusal : List RouteFlow → Option (Thrown ApplicationError)
flows_refusal flows =
    if is_nil flows
    then none
    else some (refuse task_already_executed "This task already has an execution history." 409)

abbrev pub channels_refusal :
    PersistedTask → List PersistedChannel → Option (Thrown ApplicationError)
channels_refusal task channels =
    if is_x402 task.mode && not (is_nil (unopened channels))
    then some (
        refuse live_channels_not_open
          (template (
            "Open every live provider channel before execution. Pending: "
            ∷ joined (unopened channels)
            ∷ "."
            ∷ []))
          409)
    else none

abbrev pub refuse_or :
    {W A : Type 0}
    → Option (Thrown ApplicationError)
    → Action W ApplicationError A
    → Action W ApplicationError A
refuse_or none next = next
refuse_or (some t) next = throw t

-- The orchestrator, the world, and what the provider that ended the loop threw.
pub record Progress (W : Type 0) : Type 0 where
  pub failure : Option (Thrown RouteFlow)
  pub orchestrator : Orchestrator
  pub outside : W

-- `executionFailure instanceof Error ? executionFailure.message : "Provider execution failed."`
abbrev pub failure_message : Thrown RouteFlow → String
failure_message (error message) = message
failure_message _ = "Provider execution failed."

-- `if (executionFailure)`: a falsy value that was thrown is no failure.
abbrev pub is_failure : Option (Thrown RouteFlow) → Bool
is_failure none = false
is_failure (some (alien b)) = b
is_failure (some _) = true

abbrev pub final_status : Option (Thrown RouteFlow) → TaskStatus
final_status failure = if is_failure failure then active else completed

abbrev pub thrown_message : Option (Thrown RouteFlow) → String
thrown_message none = "Provider execution failed."
thrown_message (some t) = failure_message t

module _ {W Out : Type 0} (providers : Dict (ProviderAdapter W ⊥ RequestInput Out))
    (hash : Out → String) (clock : ℕ → ℤ) where
  -- The loop over the allowed providers, after `round` of them.
  unfoldable pub run_providers : List String → ℕ → Orchestrator → W → Progress W
  run_providers [] round o w = record { failure = none; orchestrator = o; outside = w }
  run_providers (id ∷ ids) round o w =
      let (outcome, c) =
        execute providers hash id (deterministic_request id) (clock (2 * round))
          (clock (2 * round + 1)) (record { orchestrator = o; outside = w; active_flow = none }) in
      elim outcome [
        | returned _ ↦ run_providers ids (suc round) c.orchestrator c.outside
        | threw t ↦ record { failure = some t; orchestrator = c.orchestrator; outside = c.outside }
      ]

module _ {W Out : Type 0} (repository : CanalisRepository W) (chain : Chain)
    (demo_providers : Dict (ProviderAdapter W ⊥ RequestInput Out)) (hash : Out → String)
    (clock : ℕ → ℤ) (now : ℤ) where
  abbrev pub providers_of : PersistedTask → Dict (ProviderAdapter W ⊥ RequestInput Out)
  providers_of task =
      if is_x402 task.mode
      then live_providers chain task.task.budget.mint demo_providers
      else demo_providers

  abbrev pub ended :
      PersistedTask → Option (Thrown RouteFlow) → Action W ApplicationError TaskDetail
  ended task failure =
      if is_failure failure
      then throw (refuse provider_execution_failed (thrown_message failure) 502)
      else get_task repository task.task.id

  -- What follows the loop, with the clock read once more, at `now`.
  abbrev pub save : PersistedTask → Progress W → Action W ApplicationError TaskDetail
  save task progress s =
      (repository.save_execution task.task.id (get_payment_graph progress.orchestrator)
            (final_status progress.failure) now
          >> ended task progress.failure)
        progress.outside

  -- The loop and what follows it.
  abbrev pub perform : PersistedTask → Orchestrator → Action W ApplicationError TaskDetail
  perform task o s =
      save task
        (run_providers (providers_of task) hash clock task.task.policy.allowed_provider_ids 0 o s) s

  abbrev pub is_registered : PersistedTask → String → Bool
  is_registered task id = is_some (lookup id (providers_of task))

  abbrev pub start : PersistedTask → List PersistedChannel → Action W ApplicationError TaskDetail
  start task channels =
      of_result (new_orchestrator task.task (is_registered task) (reservations_of channels))
      >>= perform task

  unfoldable pub execute_task : String → Action W ApplicationError TaskDetail
  execute_task task_id = require_task repository task_id >>= λ task. refuse_or (task_refusal task) (
      repository.get_flows task.task.id >>= λ flows. refuse_or (flows_refusal flows) (
        repository.get_channels task.task.id >>= λ channels.
        refuse_or (channels_refusal task channels) (start task channels)))

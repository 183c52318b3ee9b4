-- ===== src/Application/Execution/Run.antt =====
-- What a run of `executeTask` is to do, as a relation.
use canalis.Base.{false}
use canalis.Base.Action.{alien}
use canalis.Application.Errors.{provider_execution_failed}
use canalis.Application.Details.{get_task}
use canalis.Core.Domain.{active, completed}
use canalis.Application.Execution.Kept.{Ran}
use canalis.Base.{ℕ, String, Option, none, some, List, false, ◌≡◌, ◌⊎◌}
use canalis.Base.Int.{ℤ}
use canalis.Base.Dict.{Dict}
use canalis.Base.Text.{trim}
use canalis.Base.Result.{ok}
use canalis.Base.Action.{Action, Outcome, returned, threw, Thrown, error, ◌>>◌, throw}
use canalis.Application.Errors.{ApplicationError}
use canalis.Application.Tasks.{PersistedTask, PersistedChannel}
use canalis.Application.Details.{CanalisRepository, TaskDetail, refuse}
use canalis.Application.Execution.{
  RequestInput, Chain, providers_of, reservations_of, is_registered,
}
use canalis.Core.Domain.{TaskStatus}
use canalis.Core.Flow.{RouteFlow, TaskPaymentGraph, Orchestrator}
use canalis.Core.Authorize.{get_payment_graph}
use canalis.Core.Route.Reserve.{new_orchestrator}
use canalis.Providers.Types.{ProviderAdapter}
use canalis.Application.Execution.Kept.{Keeps}

-- The saving call of a repository.
abbrev pub Save : Type 0 → Type 0
Save W = String → TaskPaymentGraph → TaskStatus → ℤ → Action W ApplicationError (Unit {0})

-- The status and the rest of the call after the saving, by what ended the loop; a falsy value that
-- was thrown is no failure.
abbrev pub Ends :
    {W : Type 0}
    → PersistedTask
    → Option (Thrown RouteFlow)
    → TaskStatus
    → (CanalisRepository W → Action W ApplicationError TaskDetail)
    → Type 0
Ends task none status rest = (status ≡ completed) × ((r : _) → rest r ≡ get_task r task.task.id)
Ends task (some (alien false)) status rest =
    (status ≡ completed) × ((r : _) → rest r ≡ get_task r task.task.id)
Ends task (some (error message)) status rest =
    (status ≡ active) × ((r : _) → rest r ≡ throw (refuse provider_execution_failed message 502))
Ends task (some _) status rest =
    (status ≡ active)
    × ((r : _) → rest r ≡ throw (refuse provider_execution_failed "Provider execution failed." 502))

module _ {W Out : Type 0} (repository : CanalisRepository W) (chain : Chain)
    (demo_providers : Dict (ProviderAdapter W ⊥ RequestInput Out)) (hash : Out → String)
    (clock : ℕ → ℤ) (now : ℤ) where
  -- The same repository with another way to save.
  abbrev pub saving : Save W → CanalisRepository W
  saving write = record repository { save_execution = write }

  -- What a run that saves has found and done: the task of the identifier was found, an orchestrator
  -- was made for it, the loop over its allowed providers led from this one to `o`, whose books are
  -- sound, with this failure, and the status and the rest of the call are what the failure says.
  pub record Run (task_id : String) (task : PersistedTask) (o : Orchestrator) (status : TaskStatus)
      (rest : CanalisRepository W → Action W ApplicationError TaskDetail) (outside : W)
      : Type 0 where
    pub asked : W
    pub answered : W
    pub was_found : repository.get_task (trim task_id) asked ≡ (returned (some task), answered)
    pub channels : List PersistedChannel
    pub opening : Orchestrator
    pub entered : W
    pub opens :
        new_orchestrator task.task
          (is_registered repository chain demo_providers hash clock now task)
          (reservations_of channels)
        ≡ ok opening
    pub failure : Option (Thrown RouteFlow)
    pub ran :
        Ran
          (providers_of repository chain demo_providers hash clock now task)
          hash
          clock
          task
          task.task.policy.allowed_provider_ids
          0
          opening
          entered
          (record { failure = failure; orchestrator = o; outside = outside })
    pub keeps : Keeps task o
    pub ends : Ends task failure status rest

  -- A run that, however executions are saved, throws without saving anything, or saves once, for its
  -- task, the graph of its orchestrator.
  abbrev pub SavesSound :
      String → (CanalisRepository W → Outcome ApplicationError TaskDetail × W) → Type 0
  SavesSound task_id run =
      ((t : Thrown ApplicationError) × (s : W) × ((write : Save W)
          → run (saving write) ≡ (threw t, s)))
      ⊎ ((task : PersistedTask) × (o : Orchestrator) × (status : TaskStatus)
          × (rest : CanalisRepository W → Action W ApplicationError TaskDetail) × (s : W) × Run
              task_id task o status rest s
          × ((write : Save W)
              → run (saving write)
                ≡ (write task.task.id (get_payment_graph o) status now >> rest (saving write)) s))

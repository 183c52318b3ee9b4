-- ===== src/Application/Execution/Saved.antt =====
-- What `executeTask` hands to the repository to be saved.
use canalis.Base.{true, false}
use canalis.Base.Action.{own, alien}
use canalis.Application.Execution.Kept.{run_providers-Ran}
use canalis.Base.{
  ℕ, String, Option, none, some, List, Bool, true, false, is_empty, if◌then◌else◌, ◌≡◌, refl, ap,
  ◌∙◌, inl, inr,
}
use canalis.Base.Int.{ℤ, pos, ◌≤ℤ◌}
use canalis.Base.Dict.{Dict}
use canalis.Base.Text.{trim}
use canalis.Base.Result.{Result, ok, err}
use canalis.Base.Action.{
  Action, Outcome, returned, threw, Thrown, error, ◌>>=◌, >>=-eq-returned, throw, of_result,
}
use canalis.Application.Errors.{ApplicationError, validation_error}
use canalis.Application.Tasks.{PersistedTask, PersistedChannel}
use canalis.Application.Details.{CanalisRepository, TaskDetail, refuse, require_task, found}
use canalis.Application.Execution.{
  RequestInput, Chain, run_providers, providers_of, task_refusal, flows_refusal, channels_refusal,
  refuse_or, reservations_of, is_registered, final_status, ended, perform, start, execute_task,
}
use canalis.Core.Flow.{RouteFlow, Orchestrator}
use canalis.Core.Route.Reserve.{new_orchestrator}
use canalis.Core.Route.Reserve.Sound.{new_orchestrator-IsSound}
use canalis.Core.Route.Reserve.Kept.{new_orchestrator-task}
use canalis.Providers.Types.{ProviderAdapter}
use canalis.Application.Execution.Kept.{run_providers-Keeps}
use canalis.Application.Execution.Run.{Save, Ends, saving, SavesSound}

module _ {W Out : Type 0} (repository : CanalisRepository W) (chain : Chain)
    (demo_providers : Dict (ProviderAdapter W ⊥ RequestInput Out)) (hash : Out → String)
    (clock : ℕ → ℤ) (now : ℤ) where
  ended-Ends :
      (task : PersistedTask) (failure : Option (Thrown RouteFlow))
      → Ends task failure
          (final_status failure)
          (λ r. ended r chain demo_providers hash clock now task failure)
  ended-Ends task none = (refl, λ r. refl)
  ended-Ends task (some (alien false)) = (refl, λ r. refl)
  ended-Ends task (some (alien true)) = (refl, λ r. refl)
  ended-Ends task (some (error message)) = (refl, λ r. refl)
  ended-Ends task (some (own flow)) = (refl, λ r. refl)

  along :
      {task_id : String} (run run' : CanalisRepository W → Outcome ApplicationError TaskDetail × W)
      → ((write : Save W)
          → run (saving repository chain demo_providers hash clock now write)
            ≡ run' (saving repository chain demo_providers hash clock now write))
      → SavesSound repository chain demo_providers hash clock now task_id run'
      → SavesSound repository chain demo_providers hash clock now task_id run
  along run run' e (inl (t, s, h)) = inl (t, s, λ write. e write ∙ h write)
  along run run' e (inr (task, o, status, rest, s, keeps, h)) =
      inr (task, o, status, rest, s, keeps, λ write. e write ∙ h write)

  after_read :
      {task_id : String} {A : Type 0} (read : Action W ApplicationError A)
      (next : CanalisRepository W → A → Action W ApplicationError TaskDetail) (s : W)
      → ((a : A) (s' : W)
          → read s ≡ (returned a, s')
          → SavesSound repository chain demo_providers hash clock now task_id (λ r. next r a s'))
      → SavesSound repository chain demo_providers hash clock now task_id (λ r. (read >>= next r) s)
  after_read {task_id} {A} read next s h = outcome (read s) refl
    where
      outcome :
          (x : Outcome ApplicationError A × W)
          → read s ≡ x
          → SavesSound repository chain demo_providers hash clock now task_id
              (λ r. (read >>= next r) s)
      outcome (returned a, s') e =
          along (λ r. (read >>= next r) s) (λ r. next r a s')
            (λ write.
              ap
                (λ x.
                  ((λ _. x) >>= next (saving repository chain demo_providers hash clock now write))
                    s)
                e)
            (h a s' e)
      outcome (threw t, s') e = inl (
        t,
        s',
        λ write.
            ap
              (λ x.
                ((λ _. x) >>= next (saving repository chain demo_providers hash clock now write)) s)
              e,
      )

  after_refusal :
      {task_id : String} (refusal : Option (Thrown ApplicationError))
      (next : CanalisRepository W → Action W ApplicationError TaskDetail) (s : W)
      → SavesSound repository chain demo_providers hash clock now task_id (λ r. next r s)
      → SavesSound repository chain demo_providers hash clock now task_id
          (λ r. refuse_or refusal (next r) s)
  after_refusal none next s h = h
  after_refusal (some t) next s h = inl (t, s, λ write. refl)

  -- The repository finds the task.
  abbrev Found : String → PersistedTask → Type 0
  Found task_id task =
      (s : W) × (s' : W) × (repository.get_task (trim task_id) s ≡ (returned (some task), s'))

  start-SavesSound :
      (task_id : String) (task : PersistedTask) (channels : List PersistedChannel) (s : W)
      → Found task_id task
      → pos 0 ≤ℤ task.task.budget.total_atomic
      → SavesSound repository chain demo_providers hash clock now task_id
          (λ r. start r chain demo_providers hash clock now task channels s)
  start-SavesSound task_id task channels s (asked, answered, was_found) positive =
      outcome (new_orchestrator task.task registered (reservations_of channels)) refl
    where
      registered : String → Bool
      registered = is_registered repository chain demo_providers hash clock now task

      offered : Dict (ProviderAdapter W ⊥ RequestInput Out)
      offered = providers_of repository chain demo_providers hash clock now task

      outcome :
          (x : Result Orchestrator)
          → new_orchestrator task.task registered (reservations_of channels) ≡ x
          → SavesSound repository chain demo_providers hash clock now task_id
              (λ r. start r chain demo_providers hash clock now task channels s)
      outcome (err message) e = inl (
        error message,
        s,
        λ write.
            ap
              (λ x.
                (of_result x
                    >>= perform (saving repository chain demo_providers hash clock now write) chain
                        demo_providers hash clock now task)
                  s)
              e,
      )
      outcome (ok o) e =
          let progress =
            run_providers offered hash clock task.task.policy.allowed_provider_ids 0 o s in
          let opens =
            new_orchestrator-IsSound task.task registered (reservations_of channels) o positive e in
          inr (
            task,
            progress.orchestrator,
            final_status progress.failure,
            λ r. ended r chain demo_providers hash clock now task progress.failure,
            progress.outside,
            record {
              asked = asked;
              answered = answered;
              was_found = was_found;
              channels = channels;
              opening = o;
              entered = s;
              opens = e;
              failure = progress.failure;
              ran =
                  run_providers-Ran offered hash clock task task.task.policy.allowed_provider_ids 0
                    o s;
              keeps =
                  run_providers-Keeps offered hash clock task task.task.policy.allowed_provider_ids
                    0 o s
                    (
                      opens.0,
                      opens.1,
                      new_orchestrator-task task.task registered (reservations_of channels) o e,
                    );
              ends = ended-Ends task progress.failure;
            },
            λ write.
                ap
                  (λ x.
                    (of_result x
                        >>= perform (saving repository chain demo_providers hash clock now write)
                            chain demo_providers hash clock now task)
                      s)
                  e,
          )

  -- A task that is required was found.
  required :
      (task_id : String) (s s' : W) (task : PersistedTask)
      → require_task repository task_id s ≡ (returned task, s')
      → Found task_id task
  required task_id s s' task e =
      let read : Action W ApplicationError (Option PersistedTask) =
        repository.get_task (trim task_id) in
      let (o, s1, got, rest) =
        >>=-eq-returned read (found repository) s
          (named (is_empty (trim task_id)) (read >>= found repository) e) in
      (s, s1, got ∙ ap (λ x. (returned x, s1)) (is_found o s1 rest))
    where
      named :
          (b : Bool) (m : Action W ApplicationError PersistedTask)
          → (if b then throw (refuse validation_error "Task id is required." 400) else m) s
            ≡ (returned task, s')
          → m s ≡ (returned task, s')
      named true m q = cc (ap (λ y. y.0) q)
      named false m q = q

      is_found :
          (o : Option PersistedTask) (s1 : W)
          → found repository o s1 ≡ (returned task, s')
          → o ≡ some task
      is_found none s1 q = cc (ap (λ y. y.0) q)
      is_found (some other) s1 q = cc (ap (λ y. y.0) q)

  -- If every task that the repository finds has a budget of zero or more, then `executeTask`, whatever
  -- the repository and the providers do, throws without saving anything, or saves once. Then the
  -- task of the identifier was found, and an orchestrator made for it asked the allowed providers one
  -- after the other, up to the first whose call threw; what is saved for the task is the payment
  -- graph of that orchestrator, whose spend is within the budget, the ceilings and the caps and is
  -- attributed to its flows. The status is completed, and `getTask` follows, if no call threw, or
  -- what was thrown is falsy; else it is active, and an error of status 502 follows.
  pub execute_task-SavesSound :
      ((id : String) (s s' : W) (task : PersistedTask)
        → repository.get_task id s ≡ (returned (some task), s')
        → pos 0 ≤ℤ task.task.budget.total_atomic)
      → (task_id : String) (s : W)
      → SavesSound repository chain demo_providers hash clock now task_id
          (λ r. execute_task r chain demo_providers hash clock now task_id s)
  unfolding execute_task
  execute_task-SavesSound budgets task_id s =
      after_read (require_task repository task_id) with_task s (λ task s1 e.
        after_refusal (task_refusal task)
          (λ r. repository.get_flows task.task.id >>= with_flows task r) s1
          (after_read (repository.get_flows task.task.id) (with_flows task) s1 (λ flows s2 _.
            after_refusal (flows_refusal flows)
              (λ r. repository.get_channels task.task.id >>= with_channels task r) s2
              (after_read (repository.get_channels task.task.id) (with_channels task) s2
                (λ channels s3 _.
                  after_refusal (channels_refusal task channels)
                    (λ r. start r chain demo_providers hash clock now task channels) s3
                    (start-SavesSound task_id task channels s3 (required task_id s s1 task e)
                      (within budgets task_id task (required task_id s s1 task e))))))))
    where
      within :
          ((id : String) (s s' : W) (task : PersistedTask)
            → repository.get_task id s ≡ (returned (some task), s')
            → pos 0 ≤ℤ task.task.budget.total_atomic)
          → (task_id : String) (task : PersistedTask) → Found task_id task
          → pos 0 ≤ℤ task.task.budget.total_atomic
      within budgets task_id task (s, s', e) = budgets (trim task_id) s s' task e

      with_channels :
          PersistedTask
          → CanalisRepository W
          → List PersistedChannel
          → Action W ApplicationError TaskDetail
      with_channels task r channels =
          refuse_or (channels_refusal task channels)
            (start r chain demo_providers hash clock now task channels)

      with_flows :
          PersistedTask
          → CanalisRepository W
          → List RouteFlow
          → Action W ApplicationError TaskDetail
      with_flows task r flows =
          refuse_or (flows_refusal flows)
            (repository.get_channels task.task.id >>= with_channels task r)

      with_task : CanalisRepository W → PersistedTask → Action W ApplicationError TaskDetail
      with_task r task =
          refuse_or (task_refusal task) (repository.get_flows task.task.id >>= with_flows task r)

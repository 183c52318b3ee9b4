-- ===== src/Application/Execution/Kept.antt =====
-- The loop of `executeTask` over the providers keeps the books of its orchestrator sound.
use canalis.Base.{some}
use canalis.Base.Action.{Thrown}
use canalis.Base.{ℕ, suc, ◌+◌, ◌*◌, String, none, some, List, [], ◌∷◌, ◌≡◌, refl, ◌∙◌}
use canalis.Base.Int.{ℤ}
use canalis.Base.Dict.{Dict}
use canalis.Base.Action.{Outcome, returned, threw}
use canalis.Application.Tasks.{PersistedTask}
use canalis.Application.Execution.{RequestInput, deterministic_request, Progress, run_providers}
use canalis.Core.Flow.{RouteFlow, Orchestrator}
use canalis.Core.Authorize.Invariant.{IsSound}
use canalis.Core.Authorize.History.{IsAttributed}
use canalis.Core.Authorize.Kept.{Reach-task}
use canalis.Core.Route.{Call, execute, RouteExecutionResult}
use canalis.Core.Route.Runs.{execute-Reach, execute-IsSound}
use canalis.Providers.Types.{ProviderAdapter}

-- The books of an orchestrator that works for this task.
abbrev pub Keeps : PersistedTask → Orchestrator → Type 0
Keeps task o = IsSound o × IsAttributed o × (o.task ≡ task.task)

module _ {W Out : Type 0} (providers : Dict (ProviderAdapter W ⊥ RequestInput Out))
    (hash : Out → String) (clock : ℕ → ℤ) (task : PersistedTask) where
  -- The providers are asked one after the other; the first whose call throws ends the loop, and what
  -- it threw is the failure.
  pub data Ran : List String → ℕ → Orchestrator → W → Progress W → Type 0 where
    all_ran :
        (round : ℕ) (o : Orchestrator) (w : W)
        → Ran [] round o w (record { failure = none; orchestrator = o; outside = w })
    goes_on :
        (id : String) (ids : List String) (round : ℕ) (o : Orchestrator) (w : W)
        (result : RouteExecutionResult Out) (c : Call W) (end : Progress W)
        → execute providers hash id
            (deterministic_request id)
            (clock (2 * round))
            (clock (2 * round + 1))
            (record { orchestrator = o; outside = w; active_flow = none })
          ≡ (returned result, c)
        → Ran ids (suc round) c.orchestrator c.outside end
        → Ran (id ∷ ids) round o w end
    stops :
        (id : String) (ids : List String) (round : ℕ) (o : Orchestrator) (w : W)
        (t : Thrown RouteFlow) (c : Call W)
        → execute providers hash id
            (deterministic_request id)
            (clock (2 * round))
            (clock (2 * round + 1))
            (record { orchestrator = o; outside = w; active_flow = none })
          ≡ (threw t, c)
        → Ran
            (id ∷ ids)
            round
            o
            w
            (record { failure = some t; orchestrator = c.orchestrator; outside = c.outside })

  pub run_providers-Ran :
      (ids : List String) (round : ℕ) (o : Orchestrator) (w : W)
      → Ran ids round o w (run_providers providers hash clock ids round o w)
  unfolding run_providers
  run_providers-Ran [] round o w = all_ran round o w
  run_providers-Ran (id ∷ ids) round o w =
      go (λ c. run_providers-Ran ids (suc round) c.orchestrator c.outside)
        (execute providers hash id (deterministic_request id) (clock (2 * round))
          (clock (2 * round + 1)) (record { orchestrator = o; outside = w; active_flow = none }))
        refl
    where
      go :
          ((c : Call W)
            → Ran ids
                (suc round)
                c.orchestrator
                c.outside
                (run_providers providers hash clock ids (suc round) c.orchestrator c.outside))
          → (x : Outcome RouteFlow (RouteExecutionResult Out) × Call W)
          → execute providers hash id
              (deterministic_request id)
              (clock (2 * round))
              (clock (2 * round + 1))
              (record { orchestrator = o; outside = w; active_flow = none })
            ≡ x
          → Ran (id ∷ ids) round o w (elim x.0 as (λ _. Progress W) [
            | returned _ ↦
                run_providers providers hash clock ids (suc round) x.1.orchestrator x.1.outside
            | threw t ↦ record {
              failure = some t;
              orchestrator = x.1.orchestrator;
              outside = x.1.outside;
            }
          ])
      go rest (returned r, c) e = goes_on id ids round o w r c _ e (rest c)
      go rest (threw t, c) e = stops id ids round o w t c e

  -- However many providers are asked, and however the loop ends.
  pub run_providers-Keeps :
      (ids : List String) (round : ℕ) (o : Orchestrator) (w : W)
      → Keeps task o
      → Keeps task (run_providers providers hash clock ids round o w).orchestrator
  unfolding run_providers
  run_providers-Keeps [] round o w h = h
  run_providers-Keeps (id ∷ ids) round o w (sound, attributed, same) =
      go (λ c h. run_providers-Keeps ids (suc round) c.orchestrator c.outside h)
        (execute providers hash id (deterministic_request id) (clock (2 * round))
          (clock (2 * round + 1)) call)
        (
          kept.0,
          kept.1,
          Reach-task (
                execute-Reach providers hash id (deterministic_request id) (clock (2 * round))
                  (clock (2 * round + 1)) call refl)
              ∙ same,
        )
    where
      call : Call W
      call = record { orchestrator = o; outside = w; active_flow = none }

      kept :
          IsSound
            (execute providers hash id
              (deterministic_request id)
              (clock (2 * round))
              (clock (2 * round + 1))
              call).1.orchestrator
          × IsAttributed
              (execute providers hash id
                (deterministic_request id)
                (clock (2 * round))
                (clock (2 * round + 1))
                call).1.orchestrator
      kept =
          execute-IsSound providers hash id (deterministic_request id) (clock (2 * round))
            (clock (2 * round + 1)) call refl sound attributed

      go :
          ((c : Call W)
            → Keeps task c.orchestrator
            → Keeps task
                (run_providers providers hash clock ids
                  (suc round)
                  c.orchestrator
                  c.outside).orchestrator)
          → (x : Outcome RouteFlow (RouteExecutionResult Out) × Call W)
          → Keeps task x.1.orchestrator
          → Keeps task
              (elim x.0 as (λ _. Progress W) [
                | returned _ ↦
                    run_providers providers hash clock ids (suc round) x.1.orchestrator x.1.outside
                | threw t ↦ record {
                  failure = some t;
                  orchestrator = x.1.orchestrator;
                  outside = x.1.outside;
                }
              ]).orchestrator
      go rest (returned r, c) h = rest c h
      go rest (threw t, c) h = h

-- ===== src/Core/Route/Reserve/Tests.antt =====
-- Runs of the constructor and of `execute` on the sample task.
use canalis.Core.Route.Decided.{Run}
use canalis.Core.Authorize.Settled.{Settles, record_settlement-Settles_iff}
use canalis.Base.{String, none, some, [], ◌∷◌, ◌≡◌, refl, Bool, includes, arith, ◌↔◌}
use canalis.Base.Int.{pos, ◌+ℤ◌, ◌≤ℤ◌}
use canalis.Base.Dict.{Dict, lookup, insert}
use canalis.Base.Result.{ok}
use canalis.Providers.Types.{ProviderAdapter}
use canalis.Core.Policy.{listed}
use canalis.Core.Flow.{ProviderRouteState, RouteSettlementRecord, Orchestrator}
use canalis.Core.Authorize.{authorize, record_settlement, with_settlement, sum_of}
use canalis.Core.Authorize.Invariant.{IsSound, authorize-IsSound}
use canalis.Core.Authorize.History.{
  Reach, here, next, authorizes, IsAttributed, Reach-IsSound, Reach-IsAttributed,
}
use canalis.Core.Route.{Call, execute}
use canalis.Core.Route.Reserve.{reservation_error, reserve_one, reserve_all, new_orchestrator}
use canalis.Core.Route.Reserve.Sound.{Opens, new_orchestrator-IsSound}
use canalis.Core.Route.Runs.{execute-Run, execute-IsSound}
use canalis.Samples.{
  sample_task, sample_reservations, sample_orchestrator, sample_state, sample_quote, sample_request,
  sample_provider,
}

abbrev is_registered : String → Bool
is_registered id = includes ("search" ∷ "data" ∷ []) id

sample_opens :
    new_orchestrator sample_task is_registered sample_reservations ≡ ok sample_orchestrator
unfolding new_orchestrator reserve_all reservation_error reserve_one listed insert ◌+ℤ◌
sample_opens = refl

sample_sound : Opens sample_task is_registered sample_orchestrator
sample_sound =
    new_orchestrator-IsSound sample_task is_registered sample_reservations sample_orchestrator
      (omega arith) sample_opens

new_orchestrator-IsSound_example :
    IsSound sample_orchestrator
    × IsAttributed sample_orchestrator
    × (sum_of (λ st. st.channel_ceiling) sample_orchestrator.provider_states ≤ℤ pos 100)
new_orchestrator-IsSound_example =
    new_orchestrator-IsSound sample_task is_registered sample_reservations sample_orchestrator
      (omega arith) sample_opens

sample_found :
    lookup "search" sample_orchestrator.provider_states ≡ some (sample_state (pos 60) "search")
unfolding lookup
sample_found = refl

-- The orchestrator after a first authorization.
abbrev next_orchestrator : Orchestrator
next_orchestrator =
    (authorize "search" "r1" (sample_state (pos 60) "search") sample_quote (pos 10)
      sample_orchestrator).1

authorize-IsSound_example : IsSound next_orchestrator
authorize-IsSound_example =
    authorize-IsSound sample_orchestrator "search" "r1" (sample_state (pos 60) "search")
      sample_quote (pos 10) sample_found sample_sound.0

sample-Reach : Reach sample_orchestrator next_orchestrator
sample-Reach = next here (
    authorizes "search" "r1" (sample_state (pos 60) "search") sample_quote (pos 10) sample_found
      refl)

Reach-IsSound_example : IsSound next_orchestrator
Reach-IsSound_example = Reach-IsSound sample-Reach sample_sound.0

Reach-IsAttributed_example : IsAttributed next_orchestrator
Reach-IsAttributed_example = Reach-IsAttributed sample-Reach sample_sound.1

abbrev sample_settlement : RouteSettlementRecord
sample_settlement = record {
  provider_id = "search";
  cumulative_amount = pos 0;
  transaction_signature = "sig";
}

record_settlement-Settles_iff_example :
    (record_settlement sample_settlement sample_orchestrator
      ≡ ok (with_settlement sample_settlement sample_orchestrator))
    ↔ (((st : ProviderRouteState) × (lookup "search" sample_orchestrator.provider_states ≡ some st)
          × (pos 0 ≤ℤ pos 0)
          × (pos 0 ≤ℤ st.cumulative_authorized))
        × Settles sample_settlement sample_orchestrator
            (with_settlement sample_settlement sample_orchestrator))
record_settlement-Settles_iff_example =
    record_settlement-Settles_iff sample_settlement sample_orchestrator
      (with_settlement sample_settlement sample_orchestrator)

abbrev sample_call : Call (Unit {0})
sample_call = record { orchestrator = sample_orchestrator; outside = tt; active_flow = none }

abbrev sample_providers : Dict (ProviderAdapter (Unit {0}) ⊥ String String)
sample_providers = ("search", sample_provider) ∷ []

abbrev after_call : Orchestrator
after_call =
    (execute sample_providers (λ output. output) "search" sample_request (pos 10) (pos 20)
      sample_call).1.orchestrator

execute-Run_example : Run sample_orchestrator "search" sample_request.request_id (pos 10) after_call
execute-Run_example =
    execute-Run sample_providers (λ output. output) "search" sample_request (pos 10) (pos 20)
      sample_call refl

execute-IsSound_example : IsSound after_call × IsAttributed after_call
execute-IsSound_example =
    execute-IsSound sample_providers (λ output. output) "search" sample_request (pos 10) (pos 20)
      sample_call refl sample_sound.0 sample_sound.1

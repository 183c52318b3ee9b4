-- ===== src/Application/Execution/Tests.antt =====
-- A task of two demonstration providers that is executed, over a repository that counts what it
-- saves.
use canalis.Base.{ℕ, suc, String, none, some, [], ◌∷◌, ◌≡◌, ap, subst, arith}
use canalis.Base.Int.{ℤ, pos, ◌≤ℤ◌}
use canalis.Base.Dict.{Dict}
use canalis.Base.Action.{returned}
use canalis.Application.Tasks.{PersistedTask, PersistedChannel, deterministic, reserved}
use canalis.Application.Details.{CanalisRepository}
use canalis.Application.Execution.{RequestInput, Chain, execute_task}
use canalis.Application.Execution.Run.{SavesSound}
use canalis.Application.Execution.Saved.{execute_task-SavesSound}
use canalis.Providers.Types.{demo, plain, ProviderAdapter}
use canalis.Samples.{sample_task, sample_quote}

abbrev stored_task : PersistedTask
stored_task = record { task = sample_task; mode = deterministic; updated_at = pos 1 }

abbrev channel : String → ℤ → PersistedChannel
channel id ceiling = record {
  task_id = "t1";
  provider_id = id;
  program_address = "program";
  network = "devnet";
  channel_address = none;
  ceiling_atomic = ceiling;
  cumulative_authorized_atomic = pos 0;
  spent_atomic = pos 0;
  status = reserved;
  open_transaction_signature = none;
  settle_transaction_signature = none;
  distribution_transaction_signature = none;
  refund_transaction_signature = none;
  recovery_state = none;
  created_at = pos 1;
  updated_at = pos 1;
}

abbrev counting : CanalisRepository ℕ
counting = record {
  get_task = λ id n. (returned (some stored_task), n);
  get_channels = λ id n. (returned (channel "search" (pos 60) ∷ channel "data" (pos 40) ∷ []), n);
  get_flows = λ id n. (returned [], n);
  get_settlements = λ id n. (returned [], n);
  save_execution = λ id graph status now n. (returned tt, suc n);
}

abbrev demo_provider : String → ProviderAdapter ℕ ⊥ RequestInput String
demo_provider id = record {
  metadata = record { id = id; name = id; payee = id; protocol = demo; description = "" };
  quote = λ request n.
      (returned (record sample_quote { provider_id = id; request_id = request.request_id }), n);
  fulfill_authorized = λ request quote auth n. (returned (plain "found"), n);
}

abbrev demo_providers : Dict (ProviderAdapter ℕ ⊥ RequestInput String)
demo_providers = ("search", demo_provider "search") ∷ ("data", demo_provider "data") ∷ []

abbrev chain : Chain
chain = record { live_provider_address = λ id. id; network = "devnet" }

execute_task-SavesSound_example :
    SavesSound counting chain demo_providers
      (λ output. output)
      (λ n. pos 10)
      (pos 20)
      "t1"
      (λ r. execute_task r chain demo_providers (λ output. output) (λ n. pos 10) (pos 20) "t1" 0)
execute_task-SavesSound_example =
    execute_task-SavesSound counting chain demo_providers (λ output. output) (λ n. pos 10) (pos 20)
      (λ id s s' task e.
        subst (λ (t : PersistedTask). pos 0 ≤ℤ t.task.budget.total_atomic) (same task s s' e)
          (omega arith))
      "t1" 0
  where
    same :
        (task : PersistedTask) (s s' : ℕ)
        → counting.get_task "t1" s ≡ (returned (some task), s')
        → stored_task ≡ task
    same task s s' e = cc (ap (λ x. x.0) e)

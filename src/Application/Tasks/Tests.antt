-- ===== src/Application/Tasks/Tests.antt =====
-- Runs of the creation of a task.
use canalis.Base.Action.{returned, threw, own}
use canalis.Application.Errors.{ApplicationError}
use canalis.Application.Tasks.{PersistedTask}
use canalis.Application.Tasks.Created.{Refused, Created}
use canalis.Base.{none, some, List, [], ◌∷◌, ◌≡◌, refl, ◌⊎◌}
use canalis.Base.Int.{pos}
use canalis.Core.Domain.{TaskStatus}
use canalis.Application.Tasks.{
  ParsedCreateTaskRequest, PersistedChannel, Sandbox, deterministic, parse_usdc, read_digits,
  before_dot, after_dot, create_task,
}
use canalis.Application.Tasks.Created.{create_task_total}

sample_usdc : parse_usdc "12.34" ≡ 12340000
unfolding parse_usdc read_digits before_dot after_dot
sample_usdc = refl

abbrev sample_sandbox : Sandbox
sample_sandbox = record {
  mint = "sandbox";
  max_task_atomic = 5000000;
  network = "devnet";
  program_address = "program";
}

abbrev sample_parsed : ParsedCreateTaskRequest
sample_parsed = record {
  owner = "owner";
  agent_id = "agent";
  budget_usd = "1.00";
  max_per_call_usd = "0.25";
  allowed_providers = "search" ∷ "data" ∷ [];
  blocked_providers = [];
  provider_caps_usd = [];
  allowed_networks = [];
  allowed_mints = [];
  allowed_protocols = "demo" ∷ [];
  policy_source_id = none;
  policy_source_version = none;
  policy_source_name = "Inline bounded policy";
  policy_overrides = [];
  mode = deterministic;
  initial_status = TaskStatus.active;
  expiry_minutes = 15;
}

create_task_total_example :
    ((e : ApplicationError) × (create_task sample_sandbox "t1" (pos 10) sample_parsed
        ≡ some (threw (own e)))
      × Refused sample_sandbox "t1" (pos 10) sample_parsed e)
    ⊎ ((task : PersistedTask) × (channels : List PersistedChannel) × (create_task sample_sandbox
            "t1"
            (pos 10)
            sample_parsed
          ≡ some (returned (task, channels)))
        × Created sample_sandbox "t1" (pos 10) sample_parsed task channels)
create_task_total_example = create_task_total sample_sandbox "t1" (pos 10) sample_parsed

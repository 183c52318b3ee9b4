-- ===== src/Samples.antt =====
-- Concrete data for the tests: a task with two providers, and an adapter that always delivers.
use canalis.Base.{String, none, some, List, [], ◌∷◌}
use canalis.Base.Int.{ℤ, pos}
use canalis.Base.Action.{returned}
use canalis.Core.Domain.{TaskStatus, Policy, Task, SpendProposal, Approval}
use canalis.Core.Flow.{ChannelReservation, ProviderRouteState, Orchestrator}
use canalis.Providers.Types.{
  demo, ProviderRequest, ProviderQuote, PaymentAuthorization, plain, ProviderAdapter,
}

abbrev pub sample_policy : Policy
sample_policy = record {
  allowed_provider_ids = "search" ∷ "data" ∷ [];
  blocked_provider_ids = none;
  max_per_call_atomic = some (pos 40);
  provider_caps_atomic = none;
  allowed_networks = none;
  allowed_mints = some ("USDC" ∷ []);
  allowed_protocols = none;
  source_policy_id = none;
  source_policy_version = none;
  source_policy_name = none;
  overrides = none;
}

abbrev pub sample_task : Task
sample_task = record {
  id = "t1";
  owner = "owner";
  agent_id = "agent";
  budget = record { mint = "USDC"; total_atomic = pos 100 };
  policy = sample_policy;
  status = TaskStatus.active;
  created_at = pos 1;
  expires_at = pos 1000;
}

-- A proposal of a first call at the search provider, for a given amount.
abbrev pub sample_proposal : ℤ → SpendProposal
sample_proposal amount = record {
  task = sample_task;
  ledger = record { task_id = "t1"; spent_atomic = pos 0; provider_spent_atomic = [] };
  provider_id = "search";
  quoted_amount = amount;
  current_cumulative = pos 0;
  next_cumulative = amount;
  channel_ceiling = pos 60;
  now = pos 10;
  mint = some "USDC";
  network = none;
  protocol = some "demo";
}

abbrev pub sample_approval : Approval
sample_approval = record {
  amount = pos 25;
  projected_task_spend = pos 25;
  projected_provider_spend = pos 25;
  next_cumulative = pos 25;
}

abbrev pub sample_reservations : List ChannelReservation
sample_reservations =
    record { provider_id = "search"; ceiling_atomic = pos 60 }
    ∷ record { provider_id = "data"; ceiling_atomic = pos 40 }
    ∷ []

abbrev pub sample_state : ℤ → String → ProviderRouteState
sample_state ceiling id = record {
  provider_id = id;
  channel_ceiling = ceiling;
  cumulative_authorized = pos 0;
  spent_atomic = pos 0;
}

-- The orchestrator that the constructor makes of them.
abbrev pub sample_orchestrator : Orchestrator
sample_orchestrator = record {
  task = sample_task;
  ledger = record { task_id = "t1"; spent_atomic = pos 0; provider_spent_atomic = [] };
  provider_states =
      ("search", sample_state (pos 60) "search") ∷ ("data", sample_state (pos 40) "data") ∷ [];
  flows = [];
  settlements = [];
}

abbrev pub sample_request : ProviderRequest String
sample_request = record { request_id = "r1"; input = "query" }

abbrev pub sample_quote : ProviderQuote
sample_quote = record {
  provider_id = "search";
  request_id = "r1";
  mint = "USDC";
  price_atomic = pos 25;
  protocol = demo;
  protocol_metadata = none;
}

abbrev pub sample_authorization : ℤ → PaymentAuthorization
sample_authorization amount = record {
  authorization_id = "t1:search:r1";
  provider_id = "search";
  request_id = "r1";
  mint = "USDC";
  amount_atomic = amount;
  protocol = demo;
  payment_reference = some "canalis:t1:search:25";
}

abbrev pub sample_provider : ProviderAdapter (Unit {0}) ⊥ String String
sample_provider = record {
  metadata = record {
    id = "search";
    name = "Search";
    payee = "payee";
    protocol = demo;
    description = "";
  };
  quote = λ request s. (returned sample_quote, s);
  fulfill_authorized = λ request quote auth s. (returned (plain "found"), s);
}

-- ===== src/Application/Details/Tests.antt =====
-- A task with one distributed and one recovered channel.
use canalis.Base.{◌<◌, none, List, [], ◌∷◌, All, ◌≡◌, ◌↔◌, refl}
use canalis.Base.Int.{pos}
use canalis.Application.Tasks.{PersistedChannel, ChannelStatus, reserved, distributed, recovered}
use canalis.Application.Details.{finalized, partially_finalized, settlement_status}
use canalis.Application.Details.Settled.{IsTerminal, get_task-finalized_iff}
use canalis.Application.Details.{CanalisRepository, TaskDetail, graph_of, get_task}
use canalis.Application.Tasks.{deterministic}
use canalis.Base.{some}
use canalis.Base.Text.{trim}
use canalis.Base.Action.{returned}
use canalis.Samples.{sample_task}

abbrev channel : ChannelStatus → PersistedChannel
channel status = record {
  task_id = "t1";
  provider_id = "search";
  program_address = "program";
  network = "devnet";
  channel_address = none;
  ceiling_atomic = pos 60;
  cumulative_authorized_atomic = pos 0;
  spent_atomic = pos 0;
  status = status;
  open_transaction_signature = none;
  settle_transaction_signature = none;
  distribution_transaction_signature = none;
  refund_transaction_signature = none;
  recovery_state = none;
  created_at = pos 1;
  updated_at = pos 1;
}

abbrev settled_channels : List PersistedChannel
settled_channels = channel distributed ∷ channel recovered ∷ []

abbrev stored : CanalisRepository (Unit {0})
stored = record {
  get_task = λ id s. (
    returned (some (record { task = sample_task; mode = deterministic; updated_at = pos 1 })),
    s,
  );
  get_channels = λ id s. (returned settled_channels, s);
  get_flows = λ id s. (returned [], s);
  get_settlements = λ id s. (returned [], s);
  save_execution = λ id graph status now s. (returned tt, s);
}

abbrev shown : TaskDetail
shown = record {
  task = record { task = sample_task; mode = deterministic; updated_at = pos 1 };
  graph =
      record (graph_of (record { task = sample_task; mode = deterministic; updated_at = pos 1 })
        settled_channels [] []) { task_id = "t1" };
  channels = settled_channels;
  settlement = settlement_status settled_channels [];
}

get_task-finalized_iff_example :
    (shown.settlement ≡ finalized) ↔ ((0 < 2) × All IsTerminal settled_channels)
unfolding get_task trim
get_task-finalized_iff_example = get_task-finalized_iff stored "t1" tt tt shown refl

half_settled :
    settlement_status (channel distributed ∷ channel reserved ∷ []) [] ≡ partially_finalized
unfolding settlement_status
half_settled = refl

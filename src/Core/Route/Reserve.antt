-- ===== src/Core/Route/Reserve.antt =====
-- packages/core/src/route.ts: the constructor of `CanalisRouteOrchestrator`, which reserves a
-- channel for each provider of the task.
pub mod Kept
pub mod Sound
mod Tests
use canalis.Base.{String, Option, List, [], ◌∷◌, Bool, not, includes}
use canalis.Base.Int.{ℤ, pos, ◌+ℤ◌, ltb_ℤ, leb_ℤ}
use canalis.Base.Dict.{Dict, insert}
use canalis.Base.Text.{template}
use canalis.Base.Action.{first_error}
use canalis.Base.Result.{Result, ok, assert, ◌>>=◌, ◌>>◌}
use canalis.Core.Domain.{Task}
use canalis.Core.Policy.{listed, cap_of, above_cap}
use canalis.Core.Flow.{ChannelReservation, ProviderRouteState, Orchestrator}

-- The variables of the constructor's loop.
pub record Reserving : Type 0 where
  pub total_reserved : ℤ
  pub seen : List String
  pub provider_states : Dict ProviderRouteState

abbrev fresh_state : ChannelReservation → ProviderRouteState
fresh_state r = record {
  provider_id = r.provider_id;
  channel_ceiling = r.ceiling_atomic;
  cumulative_authorized = pos 0;
  spent_atomic = pos 0;
}

-- `providers[id]` as a test: an adapter is registered under this name.
module _ (task : Task) (is_registered : String → Bool) where
  abbrev named : String → ChannelReservation → String
  named text r = template (text ∷ r.provider_id ∷ [])

  -- The checks of one round, in order.
  pub reservation_error : Reserving → ChannelReservation → Option String
  reservation_error acc r = first_error (
      (includes acc.seen r.provider_id, named "duplicate channel reservation: " r)
      ∷ (leb_ℤ r.ceiling_atomic (pos 0), "channel reservation ceiling must be positive")
      ∷ (not (is_registered r.provider_id), named "cannot reserve unknown provider: " r)
      ∷ (
        listed task.policy.blocked_provider_ids r.provider_id,
        named "cannot reserve explicitly blocked provider: " r,
      )
      ∷ (
        not (includes task.policy.allowed_provider_ids r.provider_id),
        named "cannot reserve provider outside task allowlist: " r,
      )
      ∷ (
        above_cap r.ceiling_atomic (cap_of task.policy.provider_caps_atomic r.provider_id),
        named "channel reservation exceeds provider cap: " r,
      )
      ∷ (
        ltb_ℤ task.budget.total_atomic (acc.total_reserved +ℤ r.ceiling_atomic),
        "aggregate channel reservations exceed task budget",
      )
      ∷ [])

  pub reserve_one : Reserving → ChannelReservation → Reserving
  reserve_one acc r = record {
    total_reserved = acc.total_reserved +ℤ r.ceiling_atomic;
    seen = r.provider_id ∷ acc.seen;
    provider_states = insert r.provider_id (fresh_state r) acc.provider_states;
  }

  pub reserve_all : Reserving → List ChannelReservation → Result Reserving
  reserve_all acc [] = ok acc
  reserve_all acc (r ∷ rs) = do assert (reservation_error acc r); reserve_all (reserve_one acc r) rs

  abbrev start : Reserving
  start = record { total_reserved = pos 0; seen = []; provider_states = [] }

  -- The fields after the loop.
  abbrev opened : Reserving → Orchestrator
  opened reserved = record {
    task = task;
    ledger = record { task_id = task.id; spent_atomic = pos 0; provider_spent_atomic = [] };
    provider_states = reserved.provider_states;
    flows = [];
    settlements = [];
  }

  pub new_orchestrator : List ChannelReservation → Result Orchestrator
  new_orchestrator reservations = do reserved ← reserve_all start reservations; ok (opened reserved)

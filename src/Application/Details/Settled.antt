-- ===== src/Application/Details/Settled.antt =====
-- What `getTask` tells of a task's settlement.
use canalis.Base.{◌≤◌, ◌<◌, List, [], ◌∷◌, true, length, All, ◌≡◌, ◌↔◌, refl, arith}
use canalis.Base.{String, ap, subst, inl, inr, ◌⊎◌}
use canalis.Base.Action.{Action, returned, threw, ◌>>=◌, >>=-eq-returned, pure}
use canalis.Application.Errors.{ApplicationError}
use canalis.Application.Tasks.{
  PersistedTask, PersistedChannel, ChannelStatus, reserved, opened, sealed, distributed, recovered,
  failed,
}
use canalis.Application.Details.{
  is_terminal, terminal_channels, finalized, settlement_status, CanalisRepository, TaskDetail,
  get_task, require_task, graph_of,
}
use canalis.Core.Flow.{RouteSettlementRecord, RouteFlow}

-- The money of the channel has been distributed or recovered.
abbrev pub IsTerminal : PersistedChannel → Type 0
IsTerminal c = (c.status ≡ distributed) ⊎ (c.status ≡ recovered)

is_terminal_iff :
    (status : ChannelStatus)
    → (is_terminal status ≡ true) ↔ ((status ≡ distributed) ⊎ (status ≡ recovered))
is_terminal_iff reserved = ground arith
is_terminal_iff opened = ground arith
is_terminal_iff sealed = ground arith
is_terminal_iff distributed = (λ _. inl refl, λ _. refl)
is_terminal_iff recovered = (λ _. inr refl, λ _. refl)
is_terminal_iff failed = ground arith

terminal_channels-le : (cs : List PersistedChannel) → terminal_channels cs ≤ length cs
terminal_channels-le [] = omega arith
terminal_channels-le (c ∷ cs) = ground (arith, terminal_channels-le cs)

terminal_channels_iff :
    (cs : List PersistedChannel) → (terminal_channels cs ≡ length cs) ↔ All IsTerminal cs
terminal_channels_iff [] = (λ _. tt, λ _. refl)
terminal_channels_iff (c ∷ cs) =
    ground (arith, terminal_channels-le cs, terminal_channels_iff cs, is_terminal_iff c.status)

settlement_status_iff :
    (channels : List PersistedChannel) (settlements : List RouteSettlementRecord)
    → (settlement_status channels settlements ≡ finalized)
      ↔ ((0 < length channels) × All IsTerminal channels)
unfolding settlement_status
settlement_status_iff channels settlements = ground (arith, terminal_channels_iff channels)

-- When `getTask` returns, whatever the repository does, it shows the task as finalized exactly when
-- it shows a channel and each of the channels that it shows has been distributed or recovered.
pub get_task-finalized_iff :
    {W : Type 0} (repository : CanalisRepository W) (task_id : String) (s s' : W)
    (detail : TaskDetail)
    → get_task repository task_id s ≡ (returned detail, s')
    → (detail.settlement ≡ finalized)
      ↔ ((0 < length detail.channels) × All IsTerminal detail.channels)
unfolding get_task
get_task-finalized_iff {W} repository task_id s s' detail e =
    let (task, s1, _, e1) = >>=-eq-returned (require_task repository task_id) with_task s e in
    let (channels, s2, _, e2) =
      >>=-eq-returned (repository.get_channels task_id) (with_channels task) s1 e1 in
    let (flows, s3, _, e3) =
      >>=-eq-returned (repository.get_flows task_id) (with_flows task channels) s2 e2 in
    let (settlements, s4, _, e4) =
      >>=-eq-returned (repository.get_settlements task_id) (with_settlements task channels flows) s3
        e3 in
    shown channels settlements (shows_settlement task channels flows settlements s4 e4)
      (shows_channels task channels flows settlements s4 e4)
  where
    with_settlements :
        PersistedTask
        → List PersistedChannel
        → List RouteFlow
        → List RouteSettlementRecord
        → Action W ApplicationError TaskDetail
    with_settlements task channels flows settlements = pure (record {
      task = task;
      graph = record (graph_of task channels flows settlements) { task_id = task_id };
      channels = channels;
      settlement = settlement_status channels settlements;
    })

    with_flows :
        PersistedTask
        → List PersistedChannel
        → List RouteFlow
        → Action W ApplicationError TaskDetail
    with_flows task channels flows =
        repository.get_settlements task_id >>= with_settlements task channels flows

    with_channels : PersistedTask → List PersistedChannel → Action W ApplicationError TaskDetail
    with_channels task channels = repository.get_flows task_id >>= with_flows task channels

    with_task : PersistedTask → Action W ApplicationError TaskDetail
    with_task task = repository.get_channels task_id >>= with_channels task

    shows_settlement :
        (task : PersistedTask) (channels : List PersistedChannel) (flows : List RouteFlow)
        (settlements : List RouteSettlementRecord) (s4 : W)
        → with_settlements task channels flows settlements s4 ≡ (returned detail, s')
        → settlement_status channels settlements ≡ detail.settlement
    shows_settlement task channels flows settlements s4 q =
        ap (λ x. elim x.0 [ returned d ↦ d.settlement | threw _ ↦ finalized ]) q

    shows_channels :
        (task : PersistedTask) (channels : List PersistedChannel) (flows : List RouteFlow)
        (settlements : List RouteSettlementRecord) (s4 : W)
        → with_settlements task channels flows settlements s4 ≡ (returned detail, s')
        → channels ≡ detail.channels
    shows_channels task channels flows settlements s4 q =
        ap (λ x. elim x.0 [ returned d ↦ d.channels | threw _ ↦ [] ]) q

    shown :
        (channels : List PersistedChannel) (settlements : List RouteSettlementRecord)
        → settlement_status channels settlements ≡ detail.settlement
        → channels ≡ detail.channels
        → (detail.settlement ≡ finalized)
          ↔ ((0 < length detail.channels) × All IsTerminal detail.channels)
    shown channels settlements p q =
        subst (λ c. (detail.settlement ≡ finalized) ↔ ((0 < length c) × All IsTerminal c)) q
          (subst (λ x. (x ≡ finalized) ↔ ((0 < length channels) × All IsTerminal channels)) p
            (settlement_status_iff channels settlements))

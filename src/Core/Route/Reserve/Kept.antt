-- ===== src/Core/Route/Reserve/Kept.antt =====
-- The constructor keeps the task that it is given.
use canalis.Base.{String, Bool, List, ◌≡◌, ap, sym}
use canalis.Base.Result.{ok, >>=-eq-ok, ok-injective}
use canalis.Core.Domain.{Task}
use canalis.Core.Flow.{ChannelReservation, Orchestrator}
use canalis.Core.Route.Reserve.{reserve_all, start, opened, new_orchestrator}

pub new_orchestrator-task :
    (task : Task) (is_registered : String → Bool) (reservations : List ChannelReservation)
    (o : Orchestrator)
    → new_orchestrator task is_registered reservations ≡ ok o
    → o.task ≡ task
unfolding new_orchestrator
new_orchestrator-task task is_registered reservations o e =
    let (acc, reserved, same) =
      >>=-eq-ok (reserve_all task is_registered (start task is_registered) reservations)
        (λ acc. ok (opened task is_registered acc)) e in
    ap (λ x. x.task) (sym (ok-injective same))

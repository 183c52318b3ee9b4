-- ===== src/Web/Lifecycle/Tests.antt =====
-- A draft that is submitted while another task is added.
use canalis.Base.{String, none, some, ◌==◌, if◌then◌else◌, ◌≡◌, refl}
use canalis.Base.Int.{pos, ◌+ℤ◌, ◌-ℤ◌}
use canalis.Base.Text.{template}
use canalis.Base.Action.{Action, returned, threw, own}
use canalis.Application.Errors.{ApplicationError}
use canalis.Application.Tasks.{PersistedTask, deterministic}
use canalis.Core.Domain.{TaskStatus}
use canalis.Persistence.Tasks.{set_status}
use canalis.Web.Lifecycle.{submit, archive, Site, transition_refused, change_status}
use canalis.Web.Lifecycle.Edges.{Moved, asked, set_next, change_status-Moved}
use canalis.Web.Lifecycle.History.{Became, sets, here, next, Reach-Became}
use canalis.Base.{List, [], ◌∷◌}
use canalis.Base.Dict.{lookup}
use canalis.Base.Text.{show_from}
use canalis.Application.Reservations.{
  Slot, cap_error, addition, give, pass, share_of, fill, allocation_error, allocate_reservations,
}
use canalis.Application.Tasks.{
  PersistedChannel, Sandbox, parse_usdc, read_digits, before_dot, after_dot, request_error, task_of,
  channel_of, create_task,
}
use canalis.Web.Amounts.{show, atomic_to_usd}
use canalis.Web.Lifecycle.Copies.{rerun, copy_request, IsCopy, create_task-copy_request}
use canalis.Samples.{sample_task}

abbrev task_in : TaskStatus → PersistedTask
task_in status = record {
  task = record sample_task { status = status };
  mode = deterministic;
  updated_at = pos 1;
}

abbrev drafts : Site (Unit {0})
drafts = record {
  tasks = λ id. if id == "t1" then some (task_in TaskStatus.draft) else none;
  outside = tt;
}

-- Another request adds a task.
abbrev busy_check : Action (Site (Unit {0})) ApplicationError (Unit {0})
busy_check s = (
  returned tt,
  record s { tasks = λ id. if id == "t2" then some (task_in TaskStatus.active) else s.tasks id },
)

abbrev submitted : Site (Unit {0})
submitted =
    (change_status busy_check submit "t1" "owner" (task_in TaskStatus.draft) (pos 7) drafts).1

change_status-Moved_example :
    Moved submit "t1" "owner"
      (task_in TaskStatus.draft)
      (pos 7)
      (asked busy_check submit "t1" "owner" (task_in TaskStatus.draft) (pos 7) drafts).tasks
      submitted.tasks
unfolding change_status set_status
change_status-Moved_example =
    change_status-Moved busy_check submit "t1" "owner" (task_in TaskStatus.draft) (pos 7) drafts
      submitted refl

Reach-Became_example :
    (new : PersistedTask) × ((set_next submit "t1" "owner"
          (task_in TaskStatus.draft)
          (pos 7)
          drafts.tasks).1
        "t1"
      ≡ some new)
    × Became (task_in TaskStatus.draft) new
Reach-Became_example =
    Reach-Became "t1" (task_in TaskStatus.draft)
      (next here (sets submit "t1" "owner" (task_in TaskStatus.draft) (pos 7) refl)) refl

archive_refused :
    (change_status busy_check archive "t1" "owner" (task_in TaskStatus.active) (pos 7) drafts).0
    ≡ threw (own (transition_refused TaskStatus.active archive))
unfolding change_status
archive_refused = refl

abbrev sandbox : Sandbox
sandbox = record {
  mint = "sandbox";
  max_task_atomic = 5000000;
  network = "devnet";
  program_address = "program";
}

abbrev finished : PersistedTask
finished = task_in TaskStatus.completed

abbrev copy : PersistedTask
copy = task_of sandbox "t3" (pos 10) (copy_request rerun "owner" finished)

abbrev slot : String → Slot
slot id = record { provider_id = id; cap = 100; allocated = 50 }

abbrev copied_channels : List PersistedChannel
copied_channels =
    channel_of sandbox "t3" (pos 10) (slot "search")
    ∷ channel_of sandbox "t3" (pos 10) (slot "data")
    ∷ []

create_task-copy_request_example : IsCopy rerun "owner" finished.task copy.task
unfolding create_task request_error copy_request parse_usdc read_digits before_dot after_dot
    atomic_to_usd show show_from cap_error addition give pass share_of fill allocation_error
    allocate_reservations lookup template ◌+ℤ◌ ◌-ℤ◌
create_task-copy_request_example =
    create_task-copy_request sandbox "t3" (pos 10) rerun "owner" finished 100 40 [] copy
      copied_channels refl refl refl refl

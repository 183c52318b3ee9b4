-- ===== src/Web/Lifecycle.antt =====
-- apps/web/src/app/api/tasks/[id]/lifecycle/route.ts: the actions that change the status of a task.
-- The test of its providers is any action of the server, in which other requests may run; what is
-- read back for the answer is left out.
pub mod Copies
pub mod Edges
pub mod History
mod Tests
use canalis.Base.{String, Option, none, some, List, [], ◌∷◌, Bool, true, false, if◌then◌else◌}
use canalis.Base.Int.{ℤ, ◌+ℤ◌, ◌-ℤ◌}
use canalis.Base.Text.{template}
use canalis.Base.Action.{Action, Outcome, returned, own, ◌>>=◌, ◌>>◌, pure, throw}
use canalis.Application.Errors.{ApplicationError, invalid_task_transition}
use canalis.Application.Tasks.{PersistedTask}
use canalis.Core.Domain.{TaskStatus, draft, active, completed, cancelled, archived}
use canalis.Persistence.Tasks.{TaskTable, is_any, set_status}

-- The actions of the request that keep to the task; the other two copy it.
pub data TaskLifecycleAction : Type 0 where
  submit : TaskLifecycleAction
  cancel : TaskLifecycleAction
  archive : TaskLifecycleAction

abbrev pub action_name : TaskLifecycleAction → String
action_name submit = "submit"
action_name cancel = "cancel"
action_name archive = "archive"

abbrev pub status_name : TaskStatus → String
status_name draft = "draft"
status_name active = "active"
status_name completed = "completed"
status_name cancelled = "cancelled"
status_name archived = "archived"

abbrev pub allowed_statuses : TaskLifecycleAction → List TaskStatus
allowed_statuses submit = draft ∷ []
allowed_statuses cancel = draft ∷ active ∷ []
allowed_statuses archive = draft ∷ completed ∷ cancelled ∷ []

abbrev pub next_status : TaskLifecycleAction → TaskStatus
next_status submit = active
next_status cancel = cancelled
next_status archive = archived

abbrev pub transition_refused : TaskStatus → TaskLifecycleAction → ApplicationError
transition_refused current action = record {
  code = invalid_task_transition;
  message =
      template
        ("Cannot " ∷ action_name action ∷ " a task while it is " ∷ status_name current ∷ "." ∷ []);
  status = 409;
  details = none;
}

abbrev pub task_changed : ApplicationError
task_changed = record {
  code = invalid_task_transition;
  message = "The task changed while this request was in progress. Refresh it before retrying.";
  status = 409;
  details = none;
}

-- The tables of the server that a request sees, and all else.
pub record Site (W : Type 0) : Type 0 where
  pub tasks : TaskTable
  pub outside : W

abbrev pub assert_transition :
    {S : Type 0} → TaskStatus → TaskLifecycleAction → Action S ApplicationError (Unit {0})
assert_transition current action =
    if is_any (allowed_statuses action) current
    then pure tt
    else throw (own (transition_refused current action))

abbrev pub is_submit : TaskLifecycleAction → Bool
is_submit submit = true
is_submit _ = false

-- `action === "submit" ? now + durationSeconds : undefined`
abbrev pub new_expiry : TaskLifecycleAction → (now : ℤ) → PersistedTask → Option ℤ
new_expiry action now existing =
    if is_submit action
    then some (now +ℤ (existing.task.expires_at -ℤ existing.task.created_at))
    else none

module _ {W : Type 0} (providers_available : Action (Site W) ApplicationError (Unit {0})) where
  abbrev pub update :
      TaskLifecycleAction
      → (id wallet_address : String) → PersistedTask
      → (now : ℤ) → Action (Site W) ApplicationError (Unit {0})
  update action id wallet_address existing now s =
      let (changed, tasks) =
        set_status id wallet_address (next_status action) now (new_expiry action now existing)
          (allowed_statuses action) s.tasks in
      (if changed then pure tt else throw (own task_changed)) (record s { tasks = tasks })

  abbrev pub tested : TaskLifecycleAction → Action (Site W) ApplicationError (Unit {0})
  tested submit = providers_available
  tested _ = pure tt

  -- The handler for the task that was found, and that the caller owns.
  unfoldable pub change_status :
      TaskLifecycleAction
      → (id wallet_address : String) → PersistedTask
      → (now : ℤ) → Action (Site W) ApplicationError (Unit {0})
  change_status action id wallet_address existing now =
      assert_transition existing.task.status action
      >> (tested action >> update action id wallet_address existing now)

-- ===== src/Persistence/Tasks.antt =====
-- packages/persistence/src/tasks.ts: `setStatus`, one statement on the table of the tasks, whose key
-- is the identifier. Of the two statements that the source writes out, the first has a condition on
-- the status more.
use canalis.Base.{
  String, Option, none, some, List, [], ◌∷◌, Bool, true, false, ◌&&◌, ◌||◌, ◌==◌, if◌then◌else◌,
}
use canalis.Base.Int.{ℤ}
use canalis.Application.Tasks.{PersistedTask}
use canalis.Core.Domain.{TaskStatus, draft, active, completed, cancelled, archived}

abbrev pub TaskTable : Type 0
TaskTable = String → Option PersistedTask

abbrev pub is_status : TaskStatus → TaskStatus → Bool
is_status draft draft = true
is_status active active = true
is_status completed completed = true
is_status cancelled cancelled = true
is_status archived archived = true
is_status _ _ = false

-- `status = ANY(expected)`
abbrev pub is_any : List TaskStatus → TaskStatus → Bool
is_any [] status = false
is_any (x ∷ xs) status = is_status x status || is_any xs status

-- `COALESCE(expires, expires_at_unix)`
abbrev pub coalesce : Option ℤ → ℤ → ℤ
coalesce none old = old
coalesce (some new) old = new

abbrev pub with_status : TaskStatus → (updated_at : ℤ) → Option ℤ → PersistedTask → PersistedTask
with_status status updated_at expires_at row = record {
  task = record row.task { status = status; expires_at = coalesce expires_at row.task.expires_at };
  mode = row.mode;
  updated_at = updated_at;
}

-- No list of expected statuses, or an empty one, expects nothing.
abbrev pub meets : List TaskStatus → TaskStatus → Bool
meets [] status = true
meets (x ∷ xs) status = is_any (x ∷ xs) status

abbrev pub put_task : String → PersistedTask → TaskTable → TaskTable
put_task id row table = λ other. if id == other then some row else table other

-- Whether a row was changed, and the table.
abbrev pub update_found :
    String
    → (owner : String) → TaskStatus
    → ℤ
    → Option ℤ
    → List TaskStatus
    → TaskTable
    → Option PersistedTask
    → Bool × TaskTable
update_found id owner status updated_at expires_at expected table none = (false, table)
update_found id owner status updated_at expires_at expected table (some row) =
    if row.task.owner == owner && meets expected row.task.status
    then (true, put_task id (with_status status updated_at expires_at row) table)
    else (false, table)

unfoldable pub set_status :
    String
    → (owner : String) → TaskStatus
    → ℤ
    → Option ℤ
    → List TaskStatus
    → TaskTable
    → Bool × TaskTable
set_status id owner status updated_at expires_at expected table =
    update_found id owner status updated_at expires_at expected table (table id)

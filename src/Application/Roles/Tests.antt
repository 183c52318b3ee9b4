-- ===== src/Application/Roles/Tests.antt =====
-- Runs of the permission check.
use canalis.Base.{◌≡◌, ◌↔◌, ◌≤◌}
use canalis.Base.Result.{ok}
use canalis.Application.Roles.{operator, tasks_execute, assert_workspace_permission}
use canalis.Application.Roles.Ranks.{assert_workspace_permission_iff}

assert_workspace_permission_iff_example :
    (assert_workspace_permission operator tasks_execute ≡ ok tt) ↔ (1 ≤ 1)
assert_workspace_permission_iff_example = assert_workspace_permission_iff operator tasks_execute

-- ===== src/Application/Roles.antt =====
-- packages/application/src/workspace.ts: the permissions of the roles in a workspace.
pub mod Ranks
mod Tests
use canalis.Base.{
  String, Option, none, some, List, [], ◌∷◌, ◌++◌, Bool, true, false, not, ◌==◌, ◌||◌,
}
use canalis.Base.Text.{template}
use canalis.Base.Action.{first_error}
use canalis.Base.Result.{Result, assert}

pub data WorkspaceRole : Type 0 where
  owner admin operator viewer : WorkspaceRole

pub data WorkspacePermission : Type 0 where
  workspace_read : WorkspacePermission
  members_read : WorkspacePermission
  members_manage : WorkspacePermission
  tasks_read : WorkspacePermission
  tasks_write : WorkspacePermission
  tasks_execute : WorkspacePermission
  channels_read : WorkspacePermission
  channels_write : WorkspacePermission
  providers_read : WorkspacePermission
  providers_write : WorkspacePermission
  policies_read : WorkspacePermission
  policies_write : WorkspacePermission
  analytics_read : WorkspacePermission
  transactions_read : WorkspacePermission
  activity_read : WorkspacePermission
  activity_write : WorkspacePermission
  integrations_read : WorkspacePermission
  integrations_write : WorkspacePermission
  developers_read : WorkspacePermission
  developers_write : WorkspacePermission
  settings_read : WorkspacePermission
  settings_write : WorkspacePermission

abbrev pub permission_name : WorkspacePermission → String
permission_name workspace_read = "workspace:read"
permission_name members_read = "members:read"
permission_name members_manage = "members:manage"
permission_name tasks_read = "tasks:read"
permission_name tasks_write = "tasks:write"
permission_name tasks_execute = "tasks:execute"
permission_name channels_read = "channels:read"
permission_name channels_write = "channels:write"
permission_name providers_read = "providers:read"
permission_name providers_write = "providers:write"
permission_name policies_read = "policies:read"
permission_name policies_write = "policies:write"
permission_name analytics_read = "analytics:read"
permission_name transactions_read = "transactions:read"
permission_name activity_read = "activity:read"
permission_name activity_write = "activity:write"
permission_name integrations_read = "integrations:read"
permission_name integrations_write = "integrations:write"
permission_name developers_read = "developers:read"
permission_name developers_write = "developers:write"
permission_name settings_read = "settings:read"
permission_name settings_write = "settings:write"

abbrev role_name : WorkspaceRole → String
role_name owner = "owner"
role_name admin = "admin"
role_name operator = "operator"
role_name viewer = "viewer"

abbrev viewer_permissions : List WorkspacePermission
viewer_permissions =
    workspace_read ∷ members_read ∷ tasks_read ∷ channels_read ∷ providers_read ∷ policies_read
    ∷ analytics_read ∷ transactions_read ∷ activity_read ∷ integrations_read ∷ developers_read
    ∷ settings_read ∷ []

abbrev operator_permissions : List WorkspacePermission
operator_permissions =
    viewer_permissions ++ (tasks_write ∷ tasks_execute ∷ channels_write ∷ activity_write ∷ [])

abbrev admin_permissions : List WorkspacePermission
admin_permissions =
    operator_permissions
    ++ (members_manage ∷ providers_write ∷ policies_write ∷ integrations_write ∷ developers_write
        ∷ settings_write ∷ [])

abbrev workspace_role_permissions : WorkspaceRole → List WorkspacePermission
workspace_role_permissions viewer = viewer_permissions
workspace_role_permissions operator = operator_permissions
workspace_role_permissions admin = admin_permissions
workspace_role_permissions owner = admin_permissions

-- `permissions.includes(permission)`
abbrev has : List WorkspacePermission → WorkspacePermission → Bool
has [] p = false
has (q ∷ qs) p = (permission_name q == permission_name p) || has qs p

pub workspace_role_has_permission : WorkspaceRole → WorkspacePermission → Bool
workspace_role_has_permission role permission = has (workspace_role_permissions role) permission

-- The error's message; its code and status are always the same.
pub assert_workspace_permission : WorkspaceRole → WorkspacePermission → Result (Unit {0})
unfolding workspace_role_has_permission
assert_workspace_permission role permission = assert (
    first_error (
      (
        not (workspace_role_has_permission role permission),
        template (
            "Workspace role "
            ∷ role_name role
            ∷ " does not allow "
            ∷ permission_name permission
            ∷ "."
            ∷ []),
      )
      ∷ []))

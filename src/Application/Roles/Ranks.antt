-- ===== src/Application/Roles/Ranks.antt =====
-- The roles are ordered: each permission asks for a least rank.
use canalis.Base.{ℕ, ◌≤◌, ◌≡◌, ◌↔◌, refl, leb, arith}
use canalis.Base.Result.{ok}
use canalis.Application.Roles.{
  WorkspaceRole, owner, admin, operator, viewer, WorkspacePermission, workspace_read, members_read,
  members_manage, tasks_read, tasks_write, tasks_execute, channels_read, channels_write,
  providers_read, providers_write, policies_read, policies_write, analytics_read, transactions_read,
  activity_read, activity_write, integrations_read, integrations_write, developers_read,
  developers_write, settings_read, settings_write, workspace_role_has_permission,
  assert_workspace_permission,
}

-- An owner may do what an admin may.
abbrev pub rank : WorkspaceRole → ℕ
rank viewer = 0
rank operator = 1
rank admin = 2
rank owner = 2

-- Reading is for everyone, the work on tasks, channels and the activity log for operators, and the
-- management of members, providers, policies, integrations, developers and settings for admins.
abbrev pub required : WorkspacePermission → ℕ
required workspace_read = 0
required members_read = 0
required members_manage = 2
required tasks_read = 0
required tasks_write = 1
required tasks_execute = 1
required channels_read = 0
required channels_write = 1
required providers_read = 0
required providers_write = 2
required policies_read = 0
required policies_write = 2
required analytics_read = 0
required transactions_read = 0
required activity_read = 0
required activity_write = 1
required integrations_read = 0
required integrations_write = 2
required developers_read = 0
required developers_write = 2
required settings_read = 0
required settings_write = 2

abbrev Agrees : WorkspacePermission → WorkspaceRole → Type 0
Agrees p role = workspace_role_has_permission role p ≡ leb (required p) (rank role)

-- The table of all roles and permissions.
table :
    (p : WorkspacePermission)
    → Agrees p owner × Agrees p admin × Agrees p operator × Agrees p viewer
unfolding workspace_role_has_permission
table workspace_read = (refl, refl, refl, refl)
table members_read = (refl, refl, refl, refl)
table members_manage = (refl, refl, refl, refl)
table tasks_read = (refl, refl, refl, refl)
table tasks_write = (refl, refl, refl, refl)
table tasks_execute = (refl, refl, refl, refl)
table channels_read = (refl, refl, refl, refl)
table channels_write = (refl, refl, refl, refl)
table providers_read = (refl, refl, refl, refl)
table providers_write = (refl, refl, refl, refl)
table policies_read = (refl, refl, refl, refl)
table policies_write = (refl, refl, refl, refl)
table analytics_read = (refl, refl, refl, refl)
table transactions_read = (refl, refl, refl, refl)
table activity_read = (refl, refl, refl, refl)
table activity_write = (refl, refl, refl, refl)
table integrations_read = (refl, refl, refl, refl)
table integrations_write = (refl, refl, refl, refl)
table developers_read = (refl, refl, refl, refl)
table developers_write = (refl, refl, refl, refl)
table settings_read = (refl, refl, refl, refl)
table settings_write = (refl, refl, refl, refl)

role-Agrees : (role : WorkspaceRole) (p : WorkspacePermission) → Agrees p role
role-Agrees owner p = (table p).0
role-Agrees admin p = (table p).1
role-Agrees operator p = (table p).2
role-Agrees viewer p = (table p).3

-- A role is allowed a permission exactly if its rank reaches the rank that the permission asks for,
-- so that an owner and an admin may do what an operator may, and everyone what a viewer may.
pub assert_workspace_permission_iff :
    (role : WorkspaceRole) (p : WorkspacePermission)
    → (assert_workspace_permission role p ≡ ok tt) ↔ (required p ≤ rank role)
unfolding assert_workspace_permission
assert_workspace_permission_iff role p = ground (arith, role-Agrees role p)

-- ===== src/Authz.antt =====
-- backend/app/authz.py: roles, the authenticated principal, and access to a workspace.
-- `Principals` is the authentication of a request, `Grants` what an authorized request has.
pub mod Access
pub mod Examples
pub mod Principals
use ocspcrltesting.Schema.{User, Workspace, WorkspaceMember, Db}
use ocspcrltesting.Prelude.{
  ℕ, String, Bool, ◌&&◌, Option, str_eq, leb, ◌==◌, if◌then◌else◌, filter, find?, value_error,
  Result, ok, err, scalar_one_or_none,
}

pub data Role : Type 0 where
  viewer member admin : Role

-- `Role` is an `IntEnum`: roles are compared by these numbers.
abbrev pub value : Role → ℕ
value viewer = 1
value member = 2
value admin = 3

unfoldable pub parse : String → Result Role
parse s =
    if str_eq s "viewer"
    then ok viewer
    else if str_eq s "member"
    then ok member
    else if str_eq s "admin"
    then ok admin
    else err value_error

pub record Principal : Type 0 where
  pub user : User
  pub token_workspace_id : Option ℕ
  pub token_role_ceiling : Option Role

pub record WorkspaceContext : Type 0 where
  pub workspace : Workspace
  pub principal : Principal
  pub role : Role

abbrev pub at_least : WorkspaceContext → Role → Bool
at_least ctx role = leb (value role) (value ctx.role)

abbrev pub is_membership : ℕ → ℕ → WorkspaceMember → Bool
is_membership user_id workspace_id m = m.workspace_id == workspace_id && m.user_id == user_id

unfoldable pub get_membership : Db → ℕ → ℕ → Result (Option WorkspaceMember)
get_membership db user_id workspace_id =
    scalar_one_or_none (filter (is_membership user_id workspace_id) db.members)

-- session.get(Workspace, workspace_id)
unfoldable pub get_workspace : Db → ℕ → Option Workspace
get_workspace db workspace_id = find? (λ w. w.id == workspace_id) db.workspaces

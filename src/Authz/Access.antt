-- ===== src/Authz/Access.antt =====
-- backend/app/authz.py: the dependencies that resolve a workspace and the caller's role in it.
pub mod Grants
use ocspcrltesting.Schema.{Workspace, Db}
use ocspcrltesting.Authz.{
  Role, admin, value, parse, Principal, WorkspaceContext, get_membership, get_workspace,
}
use ocspcrltesting.Provisioning.{
  is_personal_of, ensure_personal_workspace, ensure_default_workspace,
}
use ocspcrltesting.Prelude.{
  ℕ, Bool, true, Option, none, some, ltb, leb, ◌==◌, if◌then◌else◌, filter, http_error, Result, ok,
  err, guard, or_raise, first, ◌>>=◌, ◌>>◌,
}

-- "Token is not scoped to this workspace"
abbrev pub in_token_scope : Principal → ℕ → Bool
in_token_scope p workspace_id = elim p.token_workspace_id [
  | none ↦ true
  | some scope ↦ scope == workspace_id
]

-- The role before the token's ceiling: a global admin's, or that of the membership.
unfoldable pub base_role : Db → Principal → ℕ → Result Role
base_role db p workspace_id = if p.user.is_global_admin then ok admin else do
  membership ← get_membership db p.user.id workspace_id
  m ← or_raise membership (http_error 403)
  parse m.role

-- A token can only ever act up to its role ceiling.
abbrev pub capped : Principal → Role → Role
capped p role = elim p.token_role_ceiling [
  | none ↦ role
  | some ceiling ↦ if ltb (value ceiling) (value role) then ceiling else role
]

abbrev pub context : Role → Workspace → Principal → Role → Result WorkspaceContext
context min_role ws p role = do
  guard (leb (value min_role) (value role)) (http_error 403)
  ok (record { workspace = ws; principal = p; role = role })

unfoldable pub require_workspace : Role → ℕ → Principal → Db → Result WorkspaceContext
require_workspace min_role workspace_id p db = do
  workspace ← or_raise (get_workspace db workspace_id) (http_error 404)
  guard (in_token_scope p workspace_id) (http_error 403)
  effective ← base_role db p workspace_id
  context min_role workspace p (capped p effective)

unfoldable pub authorize_workspace_role : Db → Principal → ℕ → Role → Result WorkspaceContext
authorize_workspace_role db p workspace_id min_role = do
  workspace ← or_raise (get_workspace db workspace_id) (http_error 404)
  guard (in_token_scope p workspace_id) (http_error 403)
  effective ← base_role db p workspace_id
  context min_role workspace p (capped p effective)

-- The workspace of a request that names none. A workspace that had to be created is committed.
unfoldable pub default_workspace_for : ℕ → Db → Principal → Result (Workspace × Role × Db)
default_workspace_for new_id db p =
    if p.user.id == 0
    then (let (ws, db') = ensure_default_workspace new_id db in ok (ws, admin, db'))
    else elim (first (filter (is_personal_of p.user.id) db.workspaces)) [
      | some ws ↦ ok (ws, admin, db)
      | none ↦ do made ← ensure_personal_workspace new_id p.user db; ok (made.0, admin, made.1)
    ]

-- An omitted `workspace_id` becomes the token's own scope, if it has one.
abbrev pub requested : Option ℕ → Principal → Option ℕ
requested none p = p.token_workspace_id
requested (some id) p = some id

abbrev after_default :
    Role → Principal → Db → Result (Workspace × Role × Db) → Result WorkspaceContext × Db
after_default min_role p db (ok (ws, role, db')) = (context min_role ws p (capped p role), db')
after_default min_role p db (err e) = (err e, db)

abbrev in_named : Role → ℕ → Principal → Db → Result WorkspaceContext
in_named min_role workspace_id p db = do
  ws ← or_raise (get_workspace db workspace_id) (http_error 404)
  guard (in_token_scope p workspace_id) (http_error 403)
  role ← base_role db p workspace_id
  context min_role ws p (capped p role)

abbrev in_resolved : Role → ℕ → Principal → Db → Option ℕ → Result WorkspaceContext × Db
in_resolved min_role new_id p db none =
    after_default min_role p db (default_workspace_for new_id db p)
in_resolved min_role new_id p db (some workspace_id) = (in_named min_role workspace_id p db, db)

-- The state comes back beside an error: what was committed stays.
unfoldable pub active_workspace :
    Role → Option ℕ → ℕ → Principal → Db → Result WorkspaceContext × Db
active_workspace min_role workspace_id new_id p db =
    in_resolved min_role new_id p db (requested workspace_id p)

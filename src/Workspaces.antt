-- ===== src/Workspaces.antt =====
-- backend/app/api/workspaces.py: the workspaces and their members. A handler runs in the context
-- that `require_workspace` grants; the answer is left out where it only repeats rows.
pub mod Examples
pub mod Counting
pub mod Admins
pub mod Policy
use mathlib.Core.Option
use ocspcrltesting.Schema.{
  User, Target, text_target, id_target, Workspace, WorkspaceMember, Db, column_eq,
}
use ocspcrltesting.Settings.{Settings}
use ocspcrltesting.Audit.{record_event}
use ocspcrltesting.Provisioning.{new_workspace}
use ocspcrltesting.Authz.{admin, Principal, parse, is_membership, get_membership}
use ocspcrltesting.Authz.Access.{require_workspace}
use ocspcrltesting.Authz.Principals.{get_user}
use ocspcrltesting.Prelude.{
  ℕ, min, String, Bool, true, false, not, ◌&&◌, Option, none, some, [], ◌∷◌, ◌++◌, map, str_eq, ltb,
  leb, ◌==◌, if◌then◌else◌, is_some, get_or, is_empty, or_text, length, filter, any, update, delete,
  http_error, Result, ok, guard, or_raise, scalar_one_or_none, ◌>>=◌, ◌>>◌,
}

unfoldable pub create_workspace : Settings → ℕ → String → Principal → Db → Workspace × Db
unfolding new_workspace
create_workspace settings new_id name p db =
    let owner = if p.user.id == 0 then none else some p.user.id in
    let ws = record (new_workspace new_id name "shared" owner) {
      max_concurrent_runs = min 2 settings.max_concurrent_runs;
    } in
    let admins =
      if p.user.id == 0
      then []
      else record {
        workspace_id = new_id;
        user_id = p.user.id;
        role = "admin";
        source = some "manual";
      }
        ∷ [] in
    (
      ws,
      record_event "workspace.create" p.user (some new_id) (some (text_target name))
          (record db { workspaces = db.workspaces ++ ws ∷ []; members = db.members ++ admins }),
    )

pub record WorkspaceUpdateIn : Type 0 where
  pub name : Option String
  pub run_visibility : Option String
  pub allow_private_targets : Option Bool
  pub max_concurrent_runs : Option ℕ
  pub oidc_group_admin : Option String
  pub oidc_group : Option String
  pub oidc_group_viewer : Option String

-- The deployment-wide setting is a hard ceiling.
allowed_private : Settings → Option Bool → Workspace → Result Workspace
allowed_private settings none ws = ok ws
allowed_private settings (some allow) ws = do
  guard (not (allow && not settings.allow_private_targets)) (http_error 400)
  ok (record ws { allow_private_targets = allow })

allowed_concurrency : Settings → Option ℕ → Workspace → Result Workspace
allowed_concurrency settings none ws = ok ws
allowed_concurrency settings (some runs) ws = do
  guard (not (ltb settings.max_concurrent_runs runs)) (http_error 400)
  ok (record ws { max_concurrent_runs = runs })

-- `value or None`, where a value is given.
abbrev group_or_none : Option String → Option String → Option String
group_or_none none old = old
group_or_none (some s) old = if is_empty s then none else some s

with_names : WorkspaceUpdateIn → Workspace → Workspace
with_names payload ws = record ws {
  name = get_or payload.name ws.name;
  run_visibility = get_or payload.run_visibility ws.run_visibility;
}

with_groups : WorkspaceUpdateIn → Workspace → Workspace
with_groups payload ws = record ws {
  oidc_group_admin = group_or_none payload.oidc_group_admin ws.oidc_group_admin;
  oidc_group = group_or_none payload.oidc_group ws.oidc_group;
  oidc_group_viewer = group_or_none payload.oidc_group_viewer ws.oidc_group_viewer;
}

updated : Settings → WorkspaceUpdateIn → Workspace → Result Workspace
unfolding allowed_private allowed_concurrency with_names with_groups
updated settings payload ws = do
  ws₁ ← allowed_private settings payload.allow_private_targets (with_names payload ws)
  ws₂ ← allowed_concurrency settings payload.max_concurrent_runs ws₁
  ok (with_groups payload ws₂)

unfoldable pub update_workspace :
    Settings → WorkspaceUpdateIn → ℕ → Principal → Db → Result (Workspace × Db)
unfolding updated
update_workspace settings payload workspace_id p db = do
  ctx ← require_workspace admin workspace_id p db
  ws ← updated settings payload ctx.workspace
  ok (
    ws,
    record_event "workspace.update" p.user (some ws.id) (some (text_target ws.name))
        (record db { workspaces = update (λ w. w.id == ws.id) (λ w. ws) db.workspaces }),
  )

-- The rows that refer to a deleted workspace go with it (ON DELETE CASCADE) where the database
-- enforces foreign keys: PostgreSQL does, SQLite not unless a connection asks for it.
cascade : Bool → ℕ → Db → Db
cascade false workspace_id db = db
cascade true workspace_id db = record db {
  members = delete (λ m. m.workspace_id == workspace_id) db.members;
  tokens = delete (λ t. column_eq t.workspace_id workspace_id) db.tokens;
  runs = delete (λ r. column_eq r.workspace_id workspace_id) db.runs;
  certificates = delete (λ c. column_eq c.workspace_id workspace_id) db.certificates;
  profiles = delete (λ q. column_eq q.workspace_id workspace_id) db.profiles;
}

unfoldable pub delete_workspace : Bool → ℕ → Principal → Db → Result Db
unfolding cascade
delete_workspace foreign_keys workspace_id p db = do
  ctx ← require_workspace admin workspace_id p db
  guard (not (str_eq ctx.workspace.kind "personal")) (http_error 400)
  ok (
      record_event "workspace.delete" p.user (some workspace_id)
        (some (text_target ctx.workspace.name))
        (cascade foreign_keys workspace_id
          (record db { workspaces = delete (λ w. w.id == workspace_id) db.workspaces })))

pub record MemberAddIn : Type 0 where
  pub user_id : Option ℕ
  pub email : Option String
  pub role : String

abbrev has_email : String → User → Bool
has_email email u = elim u.email [ none ↦ false | some e ↦ str_eq e email ]

-- By id, or else by an email that is not empty.
find_user : Db → Option ℕ → String → Result (Option User)
find_user db (some id) email = ok (get_user db id)
find_user db none email = do
  guard (not (is_empty email)) (http_error 400)
  scalar_one_or_none (filter (has_email email) db.users)

unfoldable pub add_member : MemberAddIn → ℕ → Principal → Db → Result Db
unfolding find_user
add_member payload workspace_id p db = do
  ctx ← require_workspace admin workspace_id p db
  found ← find_user db payload.user_id (get_or payload.email "")
  user ← or_raise found (http_error 404)
  existing ← get_membership db user.id workspace_id
  guard (not (is_some existing)) (http_error 409)
  role ← parse payload.role
  ok (
      record_event "member.add" p.user (some workspace_id)
        (some (text_target (or_text user.email user.subject)))
        (record db {
          members =
              db.members
              ++ record {
                workspace_id = workspace_id;
                user_id = user.id;
                role = payload.role;
                source = some "manual";
              }
                ∷ [];
        }))

abbrev pub is_admin_of : ℕ → WorkspaceMember → Bool
is_admin_of workspace_id m = m.workspace_id == workspace_id && str_eq m.role "admin"

-- A workspace must keep at least one admin.
unfoldable pub guard_last_admin : Db → ℕ → ℕ → Option String → Result (Unit {0})
guard_last_admin db workspace_id user_id new_role =
    let admins = filter (is_admin_of workspace_id) db.members in
    if str_eq (get_or new_role "") "admin"
    then ok tt
    else guard (not (leb (length admins) 1 && any (λ a. a.user_id == user_id) admins))
        (http_error 400)

-- A hand-set role pins the membership: group sync leaves it alone from then on.
abbrev pub pinned : String → WorkspaceMember → WorkspaceMember
pinned role m = record m { role = role; source = some "manual" }

audit_name : ℕ → Option User → Option Target
audit_name id none = some (id_target id)
audit_name id (some u) = Option.map text_target u.email

unfoldable pub change_member_role : String → ℕ → ℕ → Principal → Db → Result Db
unfolding audit_name
change_member_role role user_id workspace_id p db = do
  ctx ← require_workspace admin workspace_id p db
  found ← get_membership db user_id workspace_id
  member ← or_raise found (http_error 404)
  guard_last_admin db workspace_id user_id (some role)
  ok (
      record_event "member.role" p.user (some workspace_id)
        (audit_name user_id (get_user db user_id))
        (record db {
          members = update (is_membership user_id workspace_id) (pinned role) db.members;
        }))

unfoldable pub remove_member : ℕ → ℕ → Principal → Db → Result Db
remove_member user_id workspace_id p db = do
  ctx ← require_workspace admin workspace_id p db
  found ← get_membership db user_id workspace_id
  member ← or_raise found (http_error 404)
  guard_last_admin db workspace_id user_id none
  ok (
      record_event "member.remove" p.user (some workspace_id) (some (id_target user_id))
        (record db { members = delete (is_membership user_id workspace_id) db.members }))

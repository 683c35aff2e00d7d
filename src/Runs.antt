-- ===== src/Runs.antt =====
-- backend/app/api/runs.py, and `authorize_run_view` of backend/app/authz.py: who sees a run, and
-- what cancelling and deleting do to it. `Visibility` has what holds of them.
pub mod Examples
pub mod Cancel
pub mod Creation
pub mod Saved
pub mod Retention
pub mod Storage
pub mod Visibility
use Prim.Native.String.{◌++◌ as concat}
use ocspcrltesting.Prelude.Items.{split_items}
use ocspcrltesting.Schema.{Workspace, WorkspaceMember, Run, ResultRow, Db, column_eq}
use ocspcrltesting.Authz.{
  Role, admin, value, parse, Principal, WorkspaceContext, get_membership, get_workspace,
}
use ocspcrltesting.Authz.Access.{in_token_scope, capped}
use ocspcrltesting.Settings.{Settings}
use ocspcrltesting.Ssrf.Policy.{NetworkPolicy, from_settings}
use ocspcrltesting.Jobs.{RunStore, has_id, get_run, is_terminal}
use ocspcrltesting.Jobs.Supervisor.{finalize_if_not_terminal}
use ocspcrltesting.Prelude.{
  length, ℕ, String, Bool, true, false, not, ◌&&◌, ◌||◌, is_empty, map, Option, none, some, List,
  [], ◌∷◌, str_eq, ltb, ◌==◌, if◌then◌else◌, filter, any, delete, http_error, Result, ok, ◌>>=◌,
  guard, or_raise, ◌>>◌,
}

-- run.created_by_user_id and run.created_by_user_id != user.id
abbrev pub by_other : Option ℕ → ℕ → Bool
by_other none user_id = false
by_other (some creator) user_id = not (creator == 0) && not (creator == user_id)

abbrev pub own_only : Workspace → Bool
own_only ws = str_eq ws.run_visibility "own"

abbrev pub hidden : WorkspaceContext → Run → Bool
hidden ctx run =
    own_only ctx.workspace
    && ltb (value ctx.role) (value admin)
    && not ctx.principal.user.is_global_admin
    && by_other run.created_by_user_id ctx.principal.user.id

unfoldable pub get_run_or_404 : RunStore → String → WorkspaceContext → Result Run
get_run_or_404 s run_id ctx = do
  run ← or_raise (get_run run_id s) (http_error 404)
  _ ← guard (column_eq run.workspace_id ctx.workspace.id) (http_error 404)
  _ ← guard (not (hidden ctx run)) (http_error 404)
  ok run

-- The condition that a query for runs gets.
abbrev pub visibility_filter : WorkspaceContext → Run → Bool
visibility_filter ctx run =
    if own_only ctx.workspace
      && ltb (value ctx.role) (value admin)
      && not ctx.principal.user.is_global_admin
    then column_eq run.created_by_user_id ctx.principal.user.id
    else true

-- A condition on a column that a query's parameter may add: `change` is applied to its values.
abbrev pub is_listed : (String → String) → Option String → String → Bool
is_listed change none value = true
is_listed change (some text) value =
    if is_empty text then true else any (str_eq value) (map change (split_items text))

-- The rows of `list_runs` before it sorts and pages them.
unfoldable pub listed_runs : RunStore → Option String → WorkspaceContext → List Run
listed_runs s status ctx =
    filter
      (λ r.
        column_eq r.workspace_id ctx.workspace.id
        && visibility_filter ctx r
        && is_listed (λ x. x) status r.status)
      s.runs

-- The condition that the text is in a result's name or message; `like` is that of the database.
abbrev pub mentions : (String → String → Bool) → Option String → ResultRow → Bool
mentions like none row = true
mentions like (some q) row =
    let pattern = concat (concat "%" q) "%" in
    if is_empty q then true else like row.name pattern || like row.message pattern

-- The rows of `get_results` before it sorts them; `upper` is `str.upper`.
unfoldable pub get_results :
    (String → String)
    → (String → String → Bool)
    → String
    → Option String
    → Option String
    → Option String
    → WorkspaceContext
    → RunStore
    → Result (List ResultRow)
get_results upper like run_id category status q ctx s = do
  run ← get_run_or_404 s run_id ctx
  ok (
      filter
        (λ row.
          str_eq row.run_id run_id
          && is_listed (λ x. x) category row.category
          && is_listed upper status row.status
          && mentions like q row)
        s.results)

-- The deployment's policy, where private targets need the workspace's own flag too.
unfoldable pub workspace_policy : Settings → WorkspaceContext → NetworkPolicy
unfolding from_settings
workspace_policy settings ctx = record (from_settings settings) {
  allow_private = settings.allow_private_targets && ctx.workspace.allow_private_targets;
}

-- The runs of a workspace that have not finished.
unfoldable pub active_runs_of : ℕ → RunStore → ℕ
active_runs_of workspace_id s =
    length
      (filter (λ r. column_eq r.workspace_id workspace_id && not (is_terminal r.status)) s.runs)

-- The streaming endpoints cannot use the workspace dependency; they ask this.
abbrev pub shown_to : Role → Workspace → Principal → Run → Bool
shown_to role ws p run =
    not (own_only ws && ltb (value role) (value admin) && by_other run.created_by_user_id p.user.id)

abbrev pub view_as_member : Workspace → Principal → Run → Option WorkspaceMember → Result Bool
view_as_member ws p run none = ok false
view_as_member ws p run (some m) = parse m.role >>= λ role. ok (shown_to (capped p role) ws p run)

abbrev pub view_in : Db → Principal → Run → Option Workspace → Result Bool
view_in db p run none = ok false
view_in db p run (some ws) =
    if not (in_token_scope p ws.id)
    then ok false
    else if p.user.is_global_admin
    then ok true
    else (get_membership db p.user.id ws.id >>= view_as_member ws p run)

unfoldable pub authorize_run_view : Db → Principal → Run → Result Bool
authorize_run_view db p run = elim run.workspace_id [
  | none ↦ ok false
  | some workspace_id ↦ view_in db p run (get_workspace db workspace_id)
]

-- The manager's cancellation: a live worker is asked to stop, and its supervisor ends the run (see
-- `Jobs.Supervisor`); without one the row is finished here. `live` says whether there is one.
unfoldable pub request_cancel : (String → String) → ℕ → Bool → String → RunStore → Bool × RunStore
request_cancel lower now live run_id s =
    if live
    then (true, s)
    else finalize_if_not_terminal lower run_id now "cancelled" (some "cancelled by user") s

unfoldable pub cancel_run :
    (String → String) → ℕ → Bool → String → WorkspaceContext → RunStore → Result RunStore
cancel_run lower now live run_id ctx s = do
  run ← get_run_or_404 s run_id ctx
  _ ← guard (not (is_terminal run.status)) (http_error 409)
  ok (request_cancel lower now live run_id s).1

-- The rows of the run and what its relationships cascade to.
unfoldable pub drop_run : String → RunStore → RunStore
drop_run run_id s = record {
  runs = delete (has_id run_id) s.runs;
  events = delete (λ e. str_eq e.run_id run_id) s.events;
  results = delete (λ r. str_eq r.run_id run_id) s.results;
}

unfoldable pub delete_run :
    (String → String) → ℕ → Bool → String → WorkspaceContext → RunStore → Result RunStore
delete_run lower now live run_id ctx s = do
  run ← get_run_or_404 s run_id ctx
  let s' = if is_terminal run.status then s else (request_cancel lower now live run_id s).1
  ok (drop_run run_id s')

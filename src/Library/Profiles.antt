-- ===== src/Library/Profiles.antt =====
-- backend/app/api/profiles.py: the profiles of a workspace. A handler runs in the context that
-- `active_workspace` resolved; the id of a new row and the time are arguments.
pub mod Names
pub mod Changes
use mathlib.Core.Option
use ocspcrltesting.Schemas.{RunConfig}
use ocspcrltesting.Schema.{Profile, Db, column_eq}
use ocspcrltesting.Authz.{member, Principal, WorkspaceContext}
use ocspcrltesting.Authz.Access.{authorize_workspace_role}
use ocspcrltesting.Prelude.{
  ℕ, String, Bool, true, false, not, ◌&&◌, Option, none, some, List, [], ◌∷◌, ◌++◌, str_eq, ◌==◌,
  id_or_none, filter, find?, update, delete, http_error, Result, ok, guard, or_raise,
  scalar_one_or_none, ◌>>=◌, ◌>>◌,
}

pub record ProfileIn : Type 0 where
  pub name : String
  pub description : Option String
  pub config : RunConfig

abbrev pub with_id : ℕ → Profile → Bool
with_id id q = q.id == id

abbrev pub is_named : ℕ → String → Profile → Bool
is_named workspace_id name q = column_eq q.workspace_id workspace_id && str_eq q.name name

unfoldable pub get_in_ws_or_404 : Db → ℕ → ℕ → Result Profile
get_in_ws_or_404 db profile_id workspace_id = do
  profile ← or_raise (find? (with_id profile_id) db.profiles) (http_error 404)
  guard (column_eq profile.workspace_id workspace_id) (http_error 404)
  ok profile

-- `existing is not None and existing.id != exclude_id`
abbrev pub is_taken : Option Profile → Option ℕ → Bool
is_taken none exclude_id = false
is_taken (some existing) exclude_id = not (column_eq exclude_id existing.id)

unfoldable pub check_name_free : Db → ℕ → String → Option ℕ → Result (Unit {0})
check_name_free db workspace_id name exclude_id = do
  existing ← scalar_one_or_none (filter (is_named workspace_id name) db.profiles)
  guard (not (is_taken existing exclude_id)) (http_error 409)
  ok tt

-- model_dump(exclude={"profile_id"})
abbrev pub stored : RunConfig → RunConfig
stored config = record config { profile_id = none }

abbrev pub new_profile : ℕ → ℕ → ℕ → Principal → ProfileIn → Profile
new_profile new_id now workspace_id p payload = record {
  id = new_id;
  workspace_id = some workspace_id;
  created_by_user_id = id_or_none p.user.id;
  name = payload.name;
  description = payload.description;
  config = stored payload.config;
  updated_at = now;
}

abbrev pub add_profile : Profile → Db → Db
add_profile profile db = record db { profiles = db.profiles ++ profile ∷ [] }

-- The rows of the answer before they are sorted by name.
unfoldable pub list_profiles : WorkspaceContext → Db → List Profile
list_profiles ctx db = filter (λ q. column_eq q.workspace_id ctx.workspace.id) db.profiles

unfoldable pub create_profile : ProfileIn → ℕ → ℕ → WorkspaceContext → Db → Result (Profile × Db)
create_profile payload new_id now ctx db = do
  check_name_free db ctx.workspace.id payload.name none
  let profile = new_profile new_id now ctx.workspace.id ctx.principal payload
  ok (profile, add_profile profile db)

abbrev pub rewritten : ProfileIn → ℕ → Profile → Profile
rewritten payload now q = record q {
  name = payload.name;
  description = payload.description;
  config = stored payload.config;
  updated_at = now;
}

unfoldable pub update_profile : ℕ → ProfileIn → ℕ → WorkspaceContext → Db → Result (Profile × Db)
update_profile profile_id payload now ctx db = do
  profile ← get_in_ws_or_404 db profile_id ctx.workspace.id
  check_name_free db ctx.workspace.id payload.name (some profile_id)
  ok (
    rewritten payload now profile,
    record db { profiles = update (with_id profile_id) (rewritten payload now) db.profiles },
  )

unfoldable pub share_profile : ℕ → ℕ → ℕ → ℕ → WorkspaceContext → Db → Result (Profile × Db)
share_profile profile_id target_workspace_id new_id now ctx db = do
  profile ← get_in_ws_or_404 db profile_id ctx.workspace.id
  guard (not (target_workspace_id == ctx.workspace.id)) (http_error 400)
  target ← authorize_workspace_role db ctx.principal target_workspace_id member
  check_name_free db target.workspace.id profile.name none
  let copy = record profile {
    id = new_id;
    workspace_id = some target.workspace.id;
    created_by_user_id = id_or_none ctx.principal.user.id;
    updated_at = now;
  }
  ok (copy, add_profile copy db)

unfoldable pub delete_profile : ℕ → WorkspaceContext → Db → Result Db
delete_profile profile_id ctx db = do
  profile ← get_in_ws_or_404 db profile_id ctx.workspace.id
  ok (record db { profiles = delete (with_id profile_id) db.profiles })

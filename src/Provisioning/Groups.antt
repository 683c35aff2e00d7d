-- ===== src/Provisioning/Groups.antt =====
-- backend/app/provisioning.py: the memberships that the identity provider's groups grant.
pub mod Examples
pub mod Rows
pub mod Sync
use ocspcrltesting.Schema.{User, Workspace, WorkspaceMember}
use ocspcrltesting.Authz.{is_membership}
use ocspcrltesting.Prelude.{
  ℕ, String, Bool, false, not, ◌&&◌, ◌||◌, Option, none, some, List, [], ◌∷◌, ◌++◌, str_eq,
  if◌then◌else◌, is_some, is_empty, or_text, filter, any, update, delete, Result, ok,
  scalar_one_or_none, ◌>>=◌,
}

-- `ws.group and ws.group in groups`
unfoldable pub grants : Option String → List String → Bool
grants none groups = false
grants (some group) groups = not (is_empty group) && any (str_eq group) groups

-- The highest role that the groups grant.
unfoldable pub entitled_role : Workspace → List String → Option String
entitled_role ws groups =
    if grants ws.oidc_group_admin groups
    then some "admin"
    else if grants ws.oidc_group groups
    then some "member"
    else if grants ws.oidc_group_viewer groups
    then some "viewer"
    else none

-- Every workspace that maps a group is a candidate.
abbrev pub maps_groups : Workspace → Bool
maps_groups ws =
    is_some ws.oidc_group_admin || is_some ws.oidc_group || is_some ws.oidc_group_viewer

-- `(member.source or "manual") == "oidc"`
abbrev pub is_managed : WorkspaceMember → Bool
is_managed m = str_eq (or_text m.source "manual") "oidc"

abbrev pub oidc_member : ℕ → ℕ → String → WorkspaceMember
oidc_member workspace_id user_id role = record {
  workspace_id = workspace_id;
  user_id = user_id;
  role = role;
  source = some "oidc";
}

-- One round of the loop, on the user's row in the workspace and on the role that it should have.
unfoldable pub reconcile :
    ℕ → ℕ → Option WorkspaceMember → Option String → List WorkspaceMember → List WorkspaceMember
reconcile user_id workspace_id none none members = members
reconcile user_id workspace_id none (some role) members =
    members ++ oidc_member workspace_id user_id role ∷ []
reconcile user_id workspace_id (some m) role members =
    if is_managed m
    then elim role [
      | none ↦ delete (is_membership user_id workspace_id) members
      | some r ↦
          if str_eq m.role r
          then members
          else update (is_membership user_id workspace_id) (λ m. record m { role = r }) members
    ]
    else members

unfoldable pub sync_workspace :
    ℕ → List String → Workspace → List WorkspaceMember → Result (List WorkspaceMember)
unfolding reconcile
sync_workspace user_id groups ws members = do
  member ← scalar_one_or_none (filter (is_membership user_id ws.id) members)
  ok (reconcile user_id ws.id member (entitled_role ws groups) members)

sync_all : ℕ → List String → List Workspace → List WorkspaceMember → Result (List WorkspaceMember)
sync_all user_id groups [] members = ok members
sync_all user_id groups (ws ∷ rest) members = do
  members' ← sync_workspace user_id groups ws members
  sync_all user_id groups rest members'

-- Empty group names are dropped first.
unfoldable pub sync_oidc_group_memberships :
    User → List String → List Workspace → List WorkspaceMember → Result (List WorkspaceMember)
unfolding sync_all
sync_oidc_group_memberships user groups workspaces members =
    sync_all user.id (filter (λ g. not (is_empty g)) groups) (filter maps_groups workspaces) members

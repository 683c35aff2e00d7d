-- ===== src/Provisioning.antt =====
-- backend/app/provisioning.py: the accounts and workspaces that sign-in and start-up make sure of.
-- The database chooses the id of a new row: it is the argument `new_id`.
pub mod Accounts
pub mod Groups
use Prim.Native.String.{◌++◌ as concat}
use ocspcrltesting.Prelude.Text.{strip, ends_with}
use ocspcrltesting.Schema.{User, Workspace, Db, column_eq}
use ocspcrltesting.Prelude.{
  or_text, ℕ, String, Bool, false, ◌&&◌, Option, none, some, [], ◌∷◌, ◌++◌, str_eq, if◌then◌else◌,
  filter, Result, ok, scalar_one_or_none, first, ◌>>=◌,
}

abbrev pub is_personal_of : ℕ → Workspace → Bool
is_personal_of user_id w = column_eq w.owner_user_id user_id && str_eq w.kind "personal"

-- The defaults of the columns are those of the table.
unfoldable pub new_workspace : ℕ → String → String → Option ℕ → Workspace
new_workspace new_id name kind owner = record {
  id = new_id;
  name = name;
  kind = kind;
  owner_user_id = owner;
  run_visibility = "all";
  allow_private_targets = false;
  max_concurrent_runs = 2;
  oidc_group_admin = none;
  oidc_group = none;
  oidc_group_viewer = none;
}

unfoldable pub personal_name : User → String
unfolding strip ends_with
personal_name user =
    let name =
      strip
        (or_text user.display_name (or_text user.email (or_text (some user.subject) "Personal"))) in
    if ends_with name "workspace" then name else concat name "'s workspace"

unfoldable pub create_personal_workspace : ℕ → User → Db → Workspace × Db
unfolding new_workspace
create_personal_workspace new_id user db =
    let ws = new_workspace new_id (personal_name user) "personal" (some user.id) in
    (
      ws,
      record db {
        workspaces = db.workspaces ++ ws ∷ [];
        members =
            db.members
            ++ record {
              workspace_id = new_id;
              user_id = user.id;
              role = "admin";
              source = some "manual";
            }
              ∷ [];
      },
    )

-- The rows of the personal workspace are added to the session; the caller commits.
unfoldable pub ensure_personal_workspace : ℕ → User → Db → Result (Workspace × Db)
unfolding create_personal_workspace
ensure_personal_workspace new_id user db = do
  existing ← scalar_one_or_none (filter (is_personal_of user.id) db.workspaces)
  elim existing [ some ws ↦ ok (ws, db) | none ↦ ok (create_personal_workspace new_id user db) ]

abbrev pub is_default : Workspace → Bool
is_default w = str_eq w.kind "shared" && str_eq w.name "Default"

unfoldable pub ensure_default_workspace : ℕ → Db → Workspace × Db
unfolding new_workspace
ensure_default_workspace new_id db = elim (first (filter is_default db.workspaces)) [
  | some ws ↦ (ws, db)
  | none ↦
      let ws = new_workspace new_id "Default" "shared" none in
      (ws, record db { workspaces = db.workspaces ++ ws ∷ [] })
]

-- ===== src/Provisioning/Accounts.antt =====
-- backend/app/provisioning.py: accounts at sign-in and at boot. `hash_password` is a parameter; the
-- ids and the time are arguments.
pub mod Examples
pub mod Startup
use ocspcrltesting.Schema.{User, WorkspaceMember, Run, Db}
use ocspcrltesting.Settings.{Settings}
use ocspcrltesting.Provisioning.{ensure_personal_workspace, ensure_default_workspace}
use ocspcrltesting.Prelude.{
  ℕ, String, Bool, true, false, not, ◌&&◌, Option, none, some, List, [], ◌∷◌, ◌++◌, str_eq, ◌==◌,
  if◌then◌else◌, is_some, is_empty, or_text, filter, update, Result, ok, err, ◌>>=◌,
  scalar_one_or_none,
}

abbrev pub is_account : String → String → User → Bool
is_account provider subject u = str_eq u.provider provider && str_eq u.subject subject

-- A text that is given and not empty replaces the old one.
abbrev pub refreshed : Option String → Option String → Option String
refreshed given old = if is_empty (or_text given "") then old else given

abbrev pub oidc_account : ℕ → String → Option String → Option String → User
oidc_account new_id subject email display_name = record {
  id = new_id;
  provider = "oidc";
  subject = subject;
  email = email;
  display_name = some (or_text display_name (or_text email subject));
  password_hash = none;
  is_global_admin = false;
  is_active = true;
  last_login_at = none;
}

abbrev pub stamped : ℕ → User → Db → User × Db
stamped now user db =
    let user' = record user { last_login_at = some now } in
    (user', record db { users = update (λ u. u.id == user.id) (λ u. user') db.users })

abbrev pub signed_in_as :
    ℕ → ℕ → ℕ → String → Option String → Option String → Db → Option User → Result (User × Db)
signed_in_as new_id new_ws now subject email display_name db none = do
  let user = oidc_account new_id subject email display_name
  made ← ensure_personal_workspace new_ws user (record db { users = db.users ++ user ∷ [] })
  ok (stamped now user made.1)
signed_in_as new_id new_ws now subject email display_name db (some user) = ok (
    stamped now
      (record user {
        email = refreshed email user.email;
        display_name = refreshed display_name user.display_name;
      })
      db)

unfoldable pub get_or_create_oidc_user :
    ℕ → ℕ → ℕ → String → Option String → Option String → Db → Result (User × Db)
get_or_create_oidc_user new_id new_ws now subject email display_name db = do
  found ← scalar_one_or_none (filter (is_account "oidc" subject) db.users)
  signed_in_as new_id new_ws now subject email display_name db found

module _ (hash_password : String → String) (settings : Settings) where
  abbrev pub bootstrap_account : ℕ → User
  bootstrap_account new_id = record {
    id = new_id;
    provider = "local";
    subject = settings.bootstrap_admin_username;
    email = none;
    display_name = some settings.bootstrap_admin_username;
    password_hash = some (hash_password settings.bootstrap_admin_password);
    is_global_admin = true;
    is_active = true;
    last_login_at = none;
  }

  abbrev pub restored : User → User
  restored u = record u {
    password_hash = some (hash_password settings.bootstrap_admin_password);
    is_global_admin = true;
    is_active = true;
  }

  abbrev pub with_bootstrap : ℕ → ℕ → Db → Option User → Result Db
  with_bootstrap new_id new_ws db none = do
    let user = bootstrap_account new_id
    made ← ensure_personal_workspace new_ws user (record db { users = db.users ++ user ∷ [] })
    ok made.1
  with_bootstrap new_id new_ws db (some user) =
      ok (record db { users = update (λ u. u.id == user.id) restored db.users })

  unfoldable pub ensure_bootstrap_admin : ℕ → ℕ → Db → Result Db
  ensure_bootstrap_admin new_id new_ws db =
      if is_empty settings.bootstrap_admin_password then ok db else do
        found ←
            scalar_one_or_none
              (filter (is_account "local" settings.bootstrap_admin_username) db.users)
        with_bootstrap new_id new_ws db found

-- The runs, profiles and certificates without a workspace.
unfoldable pub backfill_default_workspace : ℕ → Db → Db
backfill_default_workspace workspace_id db = record db {
  runs =
      update (λ r. not (is_some r.workspace_id))
        (λ r. record r { workspace_id = some workspace_id }) db.runs;
  profiles =
      update (λ q. not (is_some q.workspace_id))
        (λ q. record q { workspace_id = some workspace_id }) db.profiles;
  certificates =
      update (λ c. not (is_some c.workspace_id))
        (λ c. record c { workspace_id = some workspace_id }) db.certificates;
}

unfoldable pub backfill_member_source : Db → Db
backfill_member_source db = record db {
  members =
      update (λ m. not (is_some m.source)) (λ m. record m { source = some "manual" }) db.members;
}

unfoldable pub run_startup_provisioning : (String → String) → Settings → ℕ → ℕ → ℕ → Db → Result Db
run_startup_provisioning hash_password settings new_id new_ws new_default db = do
  db₁ ← ensure_bootstrap_admin hash_password settings new_id new_ws db
  let (ws, db₂) = ensure_default_workspace new_default db₁
  ok (backfill_member_source (backfill_default_workspace ws.id db₂))

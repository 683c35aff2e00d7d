-- ===== src/Admin.antt =====
-- backend/app/api/admin.py: the endpoints of global admins that change users. The password's hash, the
-- ids and the context of the request are arguments.
pub mod Accounts
pub mod Examples
use ocspcrltesting.Schema.{User, text_target, Db}
use ocspcrltesting.Audit.{record_event}
use ocspcrltesting.Authz.{Principal}
use ocspcrltesting.Login.{is_local}
use ocspcrltesting.Provisioning.{ensure_personal_workspace}
use ocspcrltesting.Prelude.{
  ℕ, String, Bool, true, not, ◌&&◌, Option, none, some, List, [], ◌∷◌, ◌++◌, ◌==◌, is_some, or_text,
  filter, find?, update, http_error, Result, ok, guard, or_raise, scalar_one_or_none, ◌>>=◌, ◌>>◌,
}

pub record LocalUserCreateIn : Type 0 where
  pub username : String
  pub password : String
  pub display_name : Option String
  pub is_global_admin : Bool

unfoldable pub require_global_admin : Principal → Result Principal
require_global_admin p = do guard p.user.is_global_admin (http_error 403); ok p

unfoldable pub list_users : Principal → Db → Result (List User)
list_users p db = do admin ← require_global_admin p; ok db.users

abbrev pub new_user : (String → String) → ℕ → LocalUserCreateIn → User
new_user hash_password new_id payload = record {
  id = new_id;
  provider = "local";
  subject = payload.username;
  email = none;
  display_name = some (or_text payload.display_name payload.username);
  password_hash = some (hash_password payload.password);
  is_global_admin = payload.is_global_admin;
  is_active = true;
  last_login_at = none;
}

unfoldable pub create_local_user :
    (String → String) → LocalUserCreateIn → ℕ → ℕ → Principal → Db → Result (User × Db)
create_local_user hash_password payload new_id new_ws_id p db = do
  admin ← require_global_admin p
  existing ← scalar_one_or_none (filter (is_local payload.username) db.users)
  guard (not (is_some existing)) (http_error 409)
  let user = new_user hash_password new_id payload
  made ← ensure_personal_workspace new_ws_id user (record db { users = db.users ++ user ∷ [] })
  ok (user, record_event "user.create" p.user none (some (text_target payload.username)) made.1)

abbrev pub with_id : ℕ → User → Bool
with_id id u = u.id == id

unfoldable pub set_user_active : ℕ → Bool → Principal → Db → Result (User × Db)
set_user_active user_id active p db = do
  admin ← require_global_admin p
  user ← or_raise (find? (with_id user_id) db.users) (http_error 404)
  guard (not (not active && user.id == p.user.id)) (http_error 400)
  ok (
    record user { is_active = active },
    record_event "user.active" p.user none (some (text_target user.subject)) (record db {
      users = update (with_id user_id) (λ u. record u { is_active = active }) db.users;
    }),
  )

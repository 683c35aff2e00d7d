-- ===== src/Admin/Examples.antt =====
-- Root deactivates bob and creates dave, who signs in.
use ocspcrltesting.Schema.{User, Db}
use ocspcrltesting.Login.{local_login}
use ocspcrltesting.Admin.{LocalUserCreateIn, create_local_user, set_user_active, with_id}
use ocspcrltesting.Admin.Accounts.{set_user_active_keeps, create_local_user-local_login}
use ocspcrltesting.Samples.{bob, root, db, settings, signed_in, value_or}
use ocspcrltesting.Prelude.{
  String, ◌≡◌, refl, Bool, true, false, Option, none, some, str_eq, find?, ok,
}

abbrev without_bob : User × Db
without_bob = value_or (set_user_active 2 false (signed_in root) db) (bob, db)

set_user_active_keeps_example :
    (root.is_global_admin ≡ true)
    × ((u : User) × (find? (with_id 9) without_bob.1.users ≡ some u)
        × (u.is_active ≡ true)
        × (u.is_global_admin ≡ true))
unfolding set_user_active ocspcrltesting.Admin.require_global_admin
set_user_active_keeps_example =
    set_user_active_keeps 2 false (signed_in root) db without_bob.1 without_bob.0 root refl refl
      refl

abbrev dave : LocalUserCreateIn
dave = record {
  username = "dave";
  password = "long enough";
  display_name = none;
  is_global_admin = false;
}

abbrev hash : String → String
hash password = password

abbrev verify : String → Option String → Bool
verify password none = false
verify password (some h) = str_eq password h

abbrev with_dave : User × Db
with_dave = value_or (create_local_user hash dave 10 11 (signed_in root) db) (bob, db)

create_local_user-local_login_example :
    (local_login verify settings "dave" "long enough" "key" 400 500 (λ key. none, with_dave.1)).0
    ≡ ok (record with_dave.0 { last_login_at = some 500 })
unfolding ocspcrltesting.Login.rate_limited create_local_user
    ocspcrltesting.Admin.require_global_admin ocspcrltesting.Provisioning.ensure_personal_workspace
create_local_user-local_login_example =
    create_local_user-local_login hash verify dave 10 11 (signed_in root) db with_dave.1 with_dave.0
      settings "key" 400 500 (λ key. none) refl refl refl refl

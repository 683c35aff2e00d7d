-- ===== src/Provisioning/Accounts/Examples.antt =====
-- Sign-in and boot at concrete values.
use ocspcrltesting.Schema.{User, Db}
use ocspcrltesting.Provisioning.Accounts.{get_or_create_oidc_user, run_startup_provisioning}
use ocspcrltesting.Samples.{alice, db, run, has_role, settings, value_or}
use ocspcrltesting.Prelude.{none, some, [], ◌∷◌}

-- Rows that predate workspaces and the `source` column.
abbrev legacy : Db
legacy = record db {
  members = record (has_role 2 "member" "") { source = none } ∷ [];
  runs = record run { workspace_id = none } ∷ [];
}

abbrev booted : Db
booted = value_or (run_startup_provisioning (λ p. p) settings 50 51 52 legacy) legacy

abbrev signed : User × Db
signed =
    value_or (get_or_create_oidc_user 50 51 99 "sub-1" (some "new@example") none db) (alice, db)

-- ===== src/Catalog/Stored.antt =====
-- backend/app/api/catalog.py: the server-wide selection of tests.
use ocspcrltesting.Schema.{AppSetting, Db}
use ocspcrltesting.Schemas.{Selection}
use ocspcrltesting.Authz.{Principal}
use ocspcrltesting.Catalog.{SelectionError, validate_selection}
use ocspcrltesting.Prelude.{ℕ, Option, none, some, http_error, Result, ok, err, ◌>>◌, guard}

abbrev pub tests_of : Option AppSetting → Option Selection
tests_of none = none
tests_of (some setting) = setting.tests

unfoldable pub load_global_selection : Db → Option Selection
load_global_selection db = tests_of db.global_selection

-- `if error: raise HTTPException(400)`
abbrev pub accepted : Option SelectionError → Result (Unit {0})
accepted none = ok tt
accepted (some e) = err (http_error 400)

abbrev pub check_selection : Option Selection → Result (Unit {0})
check_selection none = ok tt
check_selection (some tests) = accepted (validate_selection tests)

unfoldable pub put_global_test_selection : Option Selection → ℕ → Principal → Db → Result Db
put_global_test_selection tests now p db = do
  guard p.user.is_global_admin (http_error 403)
  check_selection tests
  ok (record db { global_selection = some (record { tests = tests; updated_at = now }) })

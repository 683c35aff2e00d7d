-- ===== src/Catalog/Examples.antt =====
-- A change of the server-wide selection, and a selected test, at concrete values.
use ocspcrltesting.Schema.{Db}
use ocspcrltesting.Schemas.{Selection}
use ocspcrltesting.Catalog.{test_catalog, lookup_key, is_in, names_of, catalog_names}
use ocspcrltesting.Catalog.Known.{IsSound, put_global_test_selection-IsSound}
use ocspcrltesting.Catalog.Selected.{selected_tests_run}
use ocspcrltesting.Catalog.Stored.{load_global_selection, put_global_test_selection}
use ocspcrltesting.Engine.Selection.{should_run}
use ocspcrltesting.Samples.{root, db, signed_in, value_or}
use ocspcrltesting.Prelude.{String, ◌≡◌, refl, true, some, List, [], ◌∷◌}

abbrev chosen : Selection
chosen = ("ikev2", "Trusted responder identification" ∷ []) ∷ []

abbrev after_put : Db
after_put = value_or (put_global_test_selection (some chosen) 50 (signed_in root) db) db

put_global_test_selection-IsSound_example :
    (root.is_global_admin ≡ true)
    × (load_global_selection after_put ≡ some chosen)
    × IsSound (some chosen)
unfolding put_global_test_selection ocspcrltesting.Catalog.validate_selection
put_global_test_selection-IsSound_example =
    put_global_test_selection-IsSound (some chosen) 50 (signed_in root) db after_put refl

abbrev two_names : List String
two_names =
    "Trusted responder identification" ∷ "CERTREQ with encoding 14 elicits CERT with OCSP" ∷ []

selected_tests_run_example :
    should_run (some two_names) "Trusted responder identification"
    ≡ is_in two_names "Trusted responder identification"
selected_tests_run_example =
    selected_tests_run "ikev2" _ two_names "Trusted responder identification" refl
      (refl, (refl, tt)) refl

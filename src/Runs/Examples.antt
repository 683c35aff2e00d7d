-- ===== src/Runs/Examples.antt =====
-- Who sees bob's run, and its cancellation, at concrete values.
use ocspcrltesting.Schema.{Run}
use ocspcrltesting.Authz.{WorkspaceContext, viewer, member}
use ocspcrltesting.Authz.Access.{active_workspace}
use ocspcrltesting.Jobs.{RunStore, get_run}
use ocspcrltesting.Runs.{authorize_run_view, get_run_or_404, cancel_run}
use ocspcrltesting.Runs.Visibility.{answer, run_view_agrees}
use ocspcrltesting.Settings.{Settings}
use ocspcrltesting.Runs.Retention.{Entry, remove_expired, sweep_expired_workspaces}
use ocspcrltesting.Samples.{bob, settings, team, db, store, run, signed_in, value_or}
use ocspcrltesting.Prelude.{◌≡◌, refl, none, some, List, true, [], ◌∷◌, ◌>>=◌, false}

run_view_agrees_example :
    authorize_run_view db (signed_in bob) run
    ≡ answer
        ((active_workspace viewer (some 7) 9 (signed_in bob) db).0 >>= get_run_or_404 store "r1")
unfolding get_run
run_view_agrees_example = run_view_agrees store "r1" db (signed_in bob) run 7 9 refl refl

abbrev as_bob : WorkspaceContext
as_bob = record { workspace = team; principal = signed_in bob; role = member }

abbrev orphan : Run
orphan = record run { created_by_user_id = none }

abbrev orphans : RunStore
orphans = record store { runs = orphan ∷ [] }

abbrev cancelled : RunStore
cancelled = value_or (cancel_run (λ s. s) 90 false "r1" as_bob store) store

abbrev entries : List Entry
entries =
    record { name = "r1"; is_dir = true; modified = some 0 }
    ∷ record { name = "r2"; is_dir = true; modified = some 4000000000 }
    ∷ record { name = "notes"; is_dir = false; modified = some 0 }
    ∷ []

abbrev a_month : Settings
a_month = record settings { retention_days = 30 }

swept_count : (sweep_expired_workspaces a_month 5000000000 (some entries) (λ run_id. none)).0 ≡ 1
unfolding sweep_expired_workspaces remove_expired
swept_count = refl

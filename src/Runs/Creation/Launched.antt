-- ===== src/Runs/Creation/Launched.antt =====
-- The rows after a run was launched.
use ocspcrltesting.Schemas.{RunConfig, Selection}
use ocspcrltesting.Schema.{Run}
use ocspcrltesting.Settings.{Settings}
use ocspcrltesting.Authz.{WorkspaceContext}
use ocspcrltesting.Jobs.{RunStore, has_id, get_run, update_run, append_event, start_run}
use ocspcrltesting.Jobs.Events.{next_seq}
use ocspcrltesting.Runs.Storage.{StoredFile, RunDirs}
use ocspcrltesting.Runs.Creation.{new_run, display_names, launch}
use ocspcrltesting.Prelude.{
  ℕ, String, ◌≡◌, refl, Bool, Option, none, some, List, [], ◌∷◌, ◌++◌, arith, eq_refl, find?,
  update,
}

update_miss :
    (p : Run → Bool) (f : Run → Run) (rs : List Run) → find? p rs ≡ none → update p f rs ≡ rs
update_miss p f [] h = refl
update_miss p f (r ∷ rs) h = ground (arith, h, update_miss p f rs)

update_new :
    (run_id : String) (f : Run → Run) (rs : List Run) (r : Run)
    → find? (has_id run_id) rs ≡ none
    → r.id ≡ run_id
    → update (has_id run_id) f (rs ++ r ∷ []) ≡ rs ++ f r ∷ []
update_new run_id f [] r h e = rw (e, eq_refl run_id) refl
update_new run_id f (x ∷ rs) r h e = ground (arith, h, update_new run_id f rs r)

pub find?-new :
    (run_id : String) (rs : List Run) (r : Run)
    → find? (has_id run_id) rs ≡ none
    → r.id ≡ run_id
    → find? (has_id run_id) (rs ++ r ∷ []) ≡ some r
find?-new run_id [] r h e = rw (e, eq_refl run_id) refl
find?-new run_id (x ∷ rs) r h e = ground (arith, h, find?-new run_id rs r)

-- The row of a run whose worker was started, after the event of its status.
abbrev pub running : ℕ → Run → Run
running now r = next_seq (record r { status = "running"; started_at = some now })

start_run-new :
    (run_id : String) (now : ℕ) (s : RunStore) (r : Run)
    → get_run run_id s ≡ none
    → r.id ≡ run_id
    → (start_run run_id now (record s { runs = s.runs ++ r ∷ [] })).runs
      ≡ s.runs ++ running now r ∷ []
unfolding start_run get_run update_run append_event
start_run-new run_id now s r h e =
    let begun = record r { status = "running"; started_at = some now } in
    let step₁ =
      update_new run_id (λ x. record x { status = "running"; started_at = some now }) s.runs r h
        e in
    rw (step₁, find?-new run_id s.runs begun h e, find?-new run_id s.runs begun h e)
      (update_new run_id next_seq s.runs begun h e)

-- A launched run is the last row, and the other rows are as before.
pub launch-runs :
    (settings : Settings) (run_id : String) (now : ℕ) (config : RunConfig) (files : List StoredFile)
    (resolved : Option Selection) (rerun_of : Option String) (ctx : WorkspaceContext) (s : RunStore)
    (dirs : RunDirs)
    → get_run run_id s ≡ none
    → (launch settings run_id now config files resolved rerun_of ctx s dirs).store.runs
      ≡ s.runs
        ++ running now (new_run run_id config (display_names files) resolved rerun_of ctx) ∷ []
unfolding launch
launch-runs settings run_id now config files resolved rerun_of ctx s dirs fresh =
    start_run-new run_id now s _ fresh refl

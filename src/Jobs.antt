-- ===== src/Jobs.antt =====
-- backend/app/jobs.py: the rows and events of a run while its worker runs. A worker's line comes as
-- the event that its JSON stands for; `uuid4` gives the ids `spare`, and `str.lower` is the parameter
-- `lower`. Each function here is one step: in the source another append of the same run, from its
-- worker's standard error, can come between the reading and the writing of `last_seq`, and the table's
-- unique index then refuses one of the two. `Supervisor` is the life of a worker, `Events` and `Endings` what holds of it.
pub mod Events
pub mod Examples
pub mod Results
pub mod Supervisor
use ocspcrltesting.Schema.{Run, RunEvent, ResultRow, Payload, snapshot}
use ocspcrltesting.Settings.{Settings}
use ocspcrltesting.Prelude.{
  ℕ, min, ◌+◌, String, Bool, ◌||◌, Option, none, some, List, [], ◌∷◌, ◌++◌, str_eq, if◌then◌else◌,
  get_or, or_text, length, filter, find?, any, update,
}

-- TERMINAL_STATUSES
unfoldable pub is_terminal : String → Bool
is_terminal s =
    str_eq s "completed" || str_eq s "failed" || str_eq s "cancelled" || str_eq s "timed_out"

pub record RunStore : Type 0 where
  pub runs : List Run
  pub events : List RunEvent
  pub results : List ResultRow

abbrev pub has_id : String → Run → Bool
has_id run_id r = str_eq r.id run_id

unfoldable pub get_run : String → RunStore → Option Run
get_run run_id s = find? (has_id run_id) s.runs

-- UPDATE runs SET … WHERE id = run_id
unfoldable pub update_run : String → (Run → Run) → RunStore → RunStore
update_run run_id f s = record s { runs = update (has_id run_id) f s.runs }

numbered : String → String → Payload → Run → RunEvent
numbered run_id kind payload run = record {
  run_id = run_id;
  seq = run.last_seq + 1;
  kind = kind;
  payload = payload;
}

append_to : String → String → Payload → RunStore → Option Run → RunStore
unfolding numbered
append_to run_id kind payload s none = s
append_to run_id kind payload s (some run) = record s {
  runs = update (has_id run_id) (λ r. record r { last_seq = r.last_seq + 1 }) s.runs;
  events = s.events ++ numbered run_id kind payload run ∷ [];
}

unfoldable pub append_event : String → String → Payload → RunStore → RunStore
unfolding append_to
append_event run_id kind payload s = append_to run_id kind payload s (get_run run_id s)

-- json of `totals`: a count for each status, and "total".
unfoldable pub bump : String → List (String × ℕ) → List (String × ℕ)
bump key [] = (key, 1) ∷ []
bump key ((k, n) ∷ rest) = if str_eq k key then (k, n + 1) ∷ rest else (k, n) ∷ bump key rest

unfoldable pub tally : String → List (String × ℕ) → ℕ
tally key [] = 0
tally key ((k, n) ∷ rest) = if str_eq k key then n else tally key rest

-- A result as the worker sends it; a missing `status` is "ERROR".
pub record ResultIn : Type 0 where
  pub id : Option String
  pub category : String
  pub name : String
  pub status : Option String
  pub message : String

abbrev pub has_result : String → ResultRow → Bool
has_result id r = str_eq r.id id

-- The id of the stored row: the engine's own, unless it is missing or taken.
unfoldable pub result_id : ResultIn → String × String → List ResultRow → String
result_id result spare rows =
    let wanted = or_text result.id spare.0 in
    if any (has_result wanted) rows then spare.1 else wanted

abbrev pub status_of : ResultIn → String
status_of result = get_or result.status "ERROR"

module _ (lower : String → String) where
  persist_in : String → ResultIn → String × String → RunStore → Option Run → RunStore
  persist_in run_id result spare s none = s
  persist_in run_id result spare s (some run) = record s {
    runs =
        update (has_id run_id)
          (λ r. record r { totals = bump (lower (status_of result)) (bump "total" r.totals) })
          s.runs;
    results =
        s.results
        ++ record {
          id = result_id result spare s.results;
          run_id = run_id;
          category = result.category;
          name = result.name;
          status = status_of result;
          message = result.message;
        }
          ∷ [];
  }

  unfoldable pub persist_result : String → ResultIn → String × String → RunStore → RunStore
  unfolding persist_in
  persist_result run_id result spare s = persist_in run_id result spare s (get_run run_id s)

-- At boot, no workers exist: any queued or running row is stale.
abbrev pub is_stale : Run → Bool
is_stale r = str_eq r.status "queued" || str_eq r.status "running"

unfoldable pub mark_orphans_failed : ℕ → RunStore → RunStore
mark_orphans_failed now s = record s {
  runs =
      update is_stale
        (λ r. record r {
          status = "failed";
          error = some "Server restarted while the run was in progress";
          finished_at = some now;
        })
        s.runs;
}

unfoldable pub active_run_count : RunStore → ℕ
active_run_count s = length (filter is_stale s.runs)

started_snapshot : String → RunStore → Option Run → RunStore
started_snapshot run_id s none = s
started_snapshot run_id s (some run) = append_event run_id "run_status" (snapshot run) s

-- After the worker was spawned: its run is running, and an event says so.
unfoldable pub start_run : String → ℕ → RunStore → RunStore
unfolding started_snapshot
start_run run_id now s =
    let s' = update_run run_id (λ r. record r { status = "running"; started_at = some now }) s in
    started_snapshot run_id s' (get_run run_id s')

timeout_of : Settings → Option Run → ℕ
timeout_of settings none = settings.default_run_timeout_seconds
timeout_of settings (some run) =
    min run.config.config.run_timeout_seconds settings.max_run_timeout_seconds

unfoldable pub run_timeout : Settings → String → RunStore → ℕ
unfolding timeout_of
run_timeout settings run_id s = timeout_of settings (get_run run_id s)

-- ===== src/Jobs/Supervisor.antt =====
-- backend/app/jobs.py: `_supervise`, from the worker's first line to the final row. What happens
-- while the worker runs comes as a schedule: its lines, and requests to cancel between them. A line of
-- its error output is a `log` line of the schedule. Messages are without the seconds of the time limit
-- and without the exit code.
pub mod Endings
pub mod Verdict
use Prim.Native.String.{◌++◌ as concat}
use ocspcrltesting.Schema.{Run, log_line, snapshot, activity, result_of}
use ocspcrltesting.Jobs.{
  RunStore, ResultIn, is_terminal, get_run, update_run, append_event, persist_result, result_id,
  status_of,
}
use ocspcrltesting.Prelude.{
  ℕ, String, Bool, true, false, ◌&&◌, Option, none, some, List, [], ◌∷◌, str_eq, if◌then◌else◌,
  is_some, get_or, is_empty, or_text,
}

-- The worker's events by their `type`. `done` has the status (missing: "completed"), the error and
-- the latency; a `fatal` event without an error has "worker failed".
pub data WorkerEvent : Type 0 where
  done : Option String → Option String → Option String → WorkerEvent
  fatal : Option String → WorkerEvent
  result : ResultIn → String × String → WorkerEvent
  progress : Option String → WorkerEvent
  log : String → String → WorkerEvent

-- A line of the worker's output, or a user's request to cancel the run.
pub data Happening : Type 0 where
  line : WorkerEvent → Happening
  cancel : Happening

-- How the worker's output ends: it exits, the time limit passes, or the supervisor itself fails.
pub data Ending : Type 0 where
  exited expired crashed : Ending

-- The variables of the supervisor, with the run's entry in the set of cancel requests.
pub record Supervision : Type 0 where
  pub store : RunStore
  pub terminal_from_worker : Option String
  pub worker_error : Option String
  pub latency : Option String
  pub cancel_requested : Bool

module _ (lower : String → String) (run_id : String) where
  handle_event : WorkerEvent → Supervision → Supervision
  handle_event (done status error latency) v = record v {
    terminal_from_worker = some (get_or status "completed");
    worker_error = error;
    latency = latency;
  }
  handle_event (fatal error) v = record v {
    terminal_from_worker = some "failed";
    worker_error = some (get_or error "worker failed");
    store =
        append_event run_id "log"
          (log_line "ERROR" (concat "Run failed: " (get_or error "worker failed"))) v.store;
  }
  handle_event (result r spare) v = record v {
    store =
        append_event run_id "result" (result_of (result_id r spare v.store.results) (status_of r))
          (persist_result lower run_id r spare v.store);
  }
  handle_event (progress current) v = record v {
    store =
        append_event run_id "progress" (activity current)
          (update_run run_id (λ r. record r { current_activity = current }) v.store);
  }
  handle_event (log level message) v = record v {
    store = append_event run_id "log" (log_line level message) v.store;
  }

  happen : Happening → Supervision → Supervision
  unfolding handle_event
  happen (line event) v = handle_event event v
  happen cancel v = record v { cancel_requested = true }

  consume : List Happening → Supervision → Supervision
  unfolding happen
  consume [] v = v
  consume (h ∷ hs) v = consume hs (happen h v)

  log_error : String → Supervision → Supervision
  log_error message v = record v {
    store = append_event run_id "log" (log_line "ERROR" message) v.store;
  }

  -- After the loop: the time limit kills the worker and decides; so does a failure of the supervisor.
  ended : Ending → Supervision → Supervision
  unfolding log_error
  ended exited v = v
  ended expired v = log_error "Run exceeded the configured timeout" (record v {
    terminal_from_worker = some "timed_out";
    worker_error = some "Run exceeded the configured timeout";
  })
  ended crashed v = record v {
    terminal_from_worker = some "failed";
    worker_error = some "internal supervisor error";
  }

  died : Supervision → Supervision
  unfolding log_error
  died v =
      if v.cancel_requested
      then record v {
        terminal_from_worker = some "cancelled";
        worker_error = some "cancelled by user";
      }
      else log_error "Worker exited unexpectedly" (record v {
        terminal_from_worker = some "failed";
        worker_error = some "Worker exited unexpectedly";
      })

  -- A run without a final event died; a completed run that was to be cancelled counts as cancelled.
  resolve : Option String → Supervision → Supervision
  unfolding died
  resolve none v = died v
  resolve (some status) v =
      if v.cancel_requested && str_eq status "completed"
      then record v { terminal_from_worker = some "cancelled" }
      else v

  finalized : ℕ → String → Option String → Option String → Run → Run
  finalized now status error latency r = record r {
    status = status;
    finished_at = some now;
    current_activity = none;
    error = if is_empty (or_text error "") then r.error else error;
    latency = if is_some latency then latency else r.latency;
  }

  with_snapshot : RunStore → Option Run → RunStore
  with_snapshot s none = s
  with_snapshot s (some run) = append_event run_id "run_status" (snapshot run) s

  unfoldable pub finalize : ℕ → String → Option String → Option String → RunStore → RunStore
  unfolding finalized with_snapshot
  finalize now status error latency s =
      let s' = update_run run_id (finalized now status error latency) s in
      with_snapshot s' (get_run run_id s')

  start : RunStore → Supervision
  start s = record {
    store = s;
    terminal_from_worker = none;
    worker_error = none;
    latency = none;
    cancel_requested = false;
  }

  unfoldable pub settle : List Happening → Ending → RunStore → Supervision
  unfolding consume ended resolve start
  settle schedule ending s =
      let v = ended ending (consume schedule (start s)) in resolve v.terminal_from_worker v

  unfoldable pub supervise : ℕ → List Happening → Ending → RunStore → RunStore
  supervise now schedule ending s =
      let v = settle schedule ending s in
      finalize now (get_or v.terminal_from_worker "") v.worker_error v.latency v.store

  abbrev finalize_live : ℕ → String → Option String → RunStore → Option Run → Bool × RunStore
  finalize_live now status error s none = (false, s)
  finalize_live now status error s (some run) =
      if is_terminal run.status then (false, s) else (true, finalize now status error none s)

  unfoldable pub finalize_if_not_terminal : ℕ → String → Option String → RunStore → Bool × RunStore
  finalize_if_not_terminal now status error s = finalize_live now status error s (get_run run_id s)

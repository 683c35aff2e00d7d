-- ===== src/Worker/Executor.antt =====
-- backend/app/worker/executor.py and `main` of backend/app/worker/__main__.py. The test modules are the
-- parameter `engine`: under a selection, the results that a category's tests produce, with their
-- diagnostics, and the error that ends them early. The resolver, `urlparse` and the loading of a file
-- (its error) are parameters, as are the checks for the file "cancel", numbered by their order.
pub mod Labels
pub mod Latency
pub mod Reports
pub mod Outcome
pub mod Emitted
use Prim.Native.String.{◌++◌ as concat}
use ocspcrltesting.Schemas.{Categories, RunConfig, Selection, is_on}
use ocspcrltesting.Ssrf.Url.{ParsedUrl, Resolver, validate_urls}
use ocspcrltesting.Engine.Selection.{should_run}
use ocspcrltesting.Runs.Storage.{Manifest}
use ocspcrltesting.Runs.Creation.{targets}
use ocspcrltesting.Worker.Json.{no_fields}
use ocspcrltesting.Worker.Analysis.{TestResult, enrich_result}
use ocspcrltesting.Worker.Executor.Labels.{
  category_order, category_label, before_tests, redact, join, str,
}
use ocspcrltesting.Worker.Executor.Latency.{Summary, collect_latencies, latency_summary}
use ocspcrltesting.Prelude.{
  ℕ, suc, ◌+◌, ◌*◌, ◌/◌, String, Bool, true, false, Option, none, some, List, [], ◌∷◌, ◌++◌, str_eq,
  map, ◌==◌, if◌then◌else◌, get_or, any, filter, length, Result, ok, err,
}

-- The lines of the worker's output. `done` has the status, the error and the latency.
pub data Event : Type 0 where
  log : String → String → Event
  progress : (activity : String) (categories_done categories_total percent : ℕ) → Event
  result : TestResult → Event
  done : String → Option String → Summary → Event
  fatal : String → Event

-- What was emitted, and the latencies that were collected.
pub record Output : Type 0 where
  pub events : List Event
  pub latencies : List ℕ

abbrev pub emit : Event → Output → Output
emit e o = record o { events = o.events ++ e ∷ [] }

-- self.log
abbrev pub write_log : String → String → Output → Output
write_log level message o = emit (log level (redact message)) o

-- An exception: its text, and the traceback.
pub record Crash : Type 0 where
  pub message : String
  pub traceback : String

-- What the program around the worker gives it. A call of `engine` comes to an end: it returns, or
-- raises an `Exception`. A call that hangs, raises `SystemExit` or is killed with the process is left
-- out; such a worker's output ends early, and the supervisor takes any list of lines.
pub record Outside : Type 0 where
  pub resolve : Resolver
  pub parse_url : String → ParsedUrl
  pub parse_ts : String → Option ℕ
  pub now : ℕ
  pub block_reason : String
  pub load_cert : String → Option Crash
  pub uuid : String → String
  pub engine : String → Option (List String) → List TestResult × Option Crash
  pub cancelled : ℕ → Bool

abbrev pub percent : ℕ → ℕ → ℕ
percent categories_done total = if total == 0 then 100 else categories_done * 100 / total

abbrev pub error_result : String → String → String → String → TestResult
error_result id category name message = record {
  id = id;
  category = category;
  name = name;
  status = "ERROR";
  message = message;
  details = no_fields;
  warnings = [];
  rfc_refs = [];
}

-- selection_map[key], where there is an entry.
abbrev pub selected_in : String → Selection → Option (List String)
selected_in key [] = none
selected_in key ((category, names) ∷ rest) =
    let later = selected_in key rest in if str_eq category key then some names else later

abbrev pub selected_for : Option Selection → String → Option (List String)
selected_for none key = none
selected_for (some selection) key = selected_in key selection

-- How `run` ends: it returns, `RunCancelled`, or another exception.
pub data Ending : Type 0 where
  returned run_cancelled : Ending
  raised : Crash → Ending

module _ (w : Outside) (m : Manifest) where
  abbrev pub emit_result : TestResult → Output → Output
  emit_result r o =
      let payload = enrich_result w.parse_ts w.now m.config r in
      emit (result payload) (record o { latencies = o.latencies ++ collect_latencies payload })

  -- _stream_result
  abbrev pub stream_result : Option (List String) → TestResult → Output → Output
  stream_result selected r o = if should_run selected r.name then emit_result r o else o

  unfoldable pub stream_results : Option (List String) → List TestResult → Output → Output
  stream_results selected [] o = o
  stream_results selected (r ∷ rs) o = stream_results selected rs (stream_result selected r o)

  abbrev pub crash_report : String → Option Crash → Output → Output
  crash_report label none o = o
  crash_report label (some crash) o =
      emit_result
        (error_result (w.uuid label) (before_tests label) (concat "Run " label) crash.message)
        (write_log "DEBUG" crash.traceback
          (write_log "ERROR" (concat label (concat " crashed: " crash.message)) o))

  abbrev pub restriction : String → Option (List String) → Output → Output
  restriction label none o = o
  restriction label (some names) o =
      write_log "INFO"
        (concat label (concat ": restricted to " (concat (str (length names)) " selected test(s)")))
        o

  -- The category `key`, when `n` of `total` are done.
  unfoldable pub run_category : String → ℕ → ℕ → Output → Output
  unfolding stream_results
  run_category key n total o =
      let label = category_label key in
      let selected = selected_for m.resolved_test_selection key in
      let (results, crash) = w.engine key selected in
      emit (progress (concat "Finished " label) (n + 1) total (percent (n + 1) total)) (
        crash_report label crash (
          stream_results selected results (
            restriction label selected (
              write_log "INFO" (concat "=== " (concat label " ==="))
                (emit (progress (concat "Running " label) n total (percent n total)) o)))))

  unfoldable pub run_categories : List String → ℕ → ℕ → Output → Ending × Output
  unfolding run_category
  run_categories [] n total o = (returned, o)
  run_categories (key ∷ keys) n total o =
      let rest = run_categories keys (n + 1) total (run_category key n total o) in
      if w.cancelled n then (run_cancelled, o) else rest

  abbrev pub enabled_keys : List String
  enabled_keys = filter (is_on m.config.categories) category_order

  abbrev pub finish : Ending × Output → Ending × Output
  finish (returned, o) = (
    returned,
    write_log "INFO" "Run complete" (emit (done "completed" none (latency_summary o.latencies)) o),
  )
  finish (run_cancelled, o) = (run_cancelled, o)
  finish (raised crash, o) = (raised crash, o)

  abbrev pub first_crash : List String → Option Crash
  first_crash [] = none
  first_crash (slot ∷ slots) =
      let later = first_crash slots in
      if any (str_eq slot) m.files
      then elim (w.load_cert slot) [ none ↦ later | some crash ↦ some crash ]
      else later

  abbrev pub announce : Option Selection → Output → Output
  announce none o = o
  announce (some []) o = o
  announce (some (entry ∷ entries)) o =
      write_log "INFO" "Fine-grained test selection is active for this run" o

  -- The certificates are loaded, then the enabled categories run in order.
  abbrev pub run_loaded : Option Crash → Output → Ending × Output
  run_loaded (some crash) o = (raised crash, o)
  run_loaded none o = finish (
      run_categories enabled_keys 0 (length enabled_keys) (
        announce m.resolved_test_selection (
          write_log "INFO"
            (concat "Enabled categories: "
              (if length enabled_keys == 0 then "none" else join (map category_label enabled_keys)))
            o)))

  -- A target that violates the policy fails the run as an ordinary result.
  abbrev pub run_checked : Result (Unit {0}) → Output → Ending × Output
  run_checked (ok u) o =
      run_loaded
        (first_crash ("issuer_cert" ∷ "good_cert" ∷ "revoked_cert" ∷ "unknown_ca_cert" ∷ [])) o
  run_checked (err e) o =
      let o' =
        emit_result
          (error_result (w.uuid "Setup") "Setup" "Outbound target policy check" w.block_reason)
          (write_log "ERROR" (concat "[NETGUARD] " w.block_reason) o) in
      (returned, emit (done "failed" (some w.block_reason) (latency_summary o'.latencies)) o')

  unfoldable pub run : Ending × Output
  unfolding run_categories
  run =
      if any (str_eq "issuer_cert") m.files
      then run_checked (validate_urls w.resolve (targets w.parse_url m.config) m.policy) (
          write_log "INFO"
            (concat "Run " (concat m.run_id (concat " starting against " m.config.ocsp_url)))
            (record { events = []; latencies = [] }))
      else (
        raised
            (record { message = "Issuer certificate missing from job manifest"; traceback = "" }),
        record { events = []; latencies = [] },
      )

-- The exceptions that `main` turns into a last event.
abbrev pub last_events : Ending × Output → List Event
last_events (returned, o) = o.events
last_events (run_cancelled, o) =
    o.events ++ done "cancelled" none (latency_summary o.latencies) ∷ []
last_events (raised crash, o) = o.events ++ log "ERROR" crash.traceback ∷ fatal crash.message ∷ []

-- The manifest may be unreadable.
abbrev pub main : Outside → Result Manifest → String → List Event
main w (err e) message = fatal (concat "Failed to initialize run: " message) ∷ []
main w (ok m) message = last_events (run w m)

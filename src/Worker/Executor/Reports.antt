-- ===== src/Worker/Executor/Reports.antt =====
-- How a worker's output ends, and what its supervisor makes of it.
use Prim.Native.String.{◌++◌ as concat}
use ocspcrltesting.Library.Rows.{count-append_one}
use ocspcrltesting.Runs.Storage.{Manifest}
use ocspcrltesting.Engine.Selection.{should_run}
use ocspcrltesting.Worker.Analysis.{TestResult}
use ocspcrltesting.Schemas.{Selection}
use ocspcrltesting.Worker.Executor.Labels.{category_label, join}
use ocspcrltesting.Worker.Executor.Latency.{latency_summary}
use ocspcrltesting.Worker.Executor.{
  Event, log, progress, result, done, fatal, Output, emit, write_log, Crash, Outside, Ending,
  error_result, returned, run_cancelled, raised, emit_result, stream_result, stream_results,
  percent, crash_report, restriction, run_category, run_categories, enabled_keys, finish, announce,
  run_loaded, run_checked, run, last_events, main, selected_for,
}
use ocspcrltesting.Prelude.{
  ℕ, ◌+◌, String, ◌≡◌, ◌∙◌, refl, Bool, true, false, Option, none, some, List, [], ◌∷◌, ◌++◌, arith,
  Bool-cases, inl, inr, any, count, str_eq, if◌then◌else◌, length, Result, ok, err, ◌==◌, map,
}

-- The last words of a worker.
abbrev pub is_report : Event → Bool
is_report (done status error latency) = true
is_report (fatal error) = true
is_report (log level message) = false
is_report (progress a n t p) = false
is_report (result r) = false

abbrev pub reports : List Event → ℕ
reports events = count is_report events

emit-reports :
    (e : Event) (o : Output) → reports (emit e o).events ≡ reports o.events + reports (e ∷ [])
emit-reports e o = count-append_one is_report o.events e

reports-end : (events rest : List Event) → reports (events ++ rest) ≡ reports events + reports rest
reports-end [] rest = omega arith
reports-end (e ∷ events) rest = ground (arith, reports-end events rest)

module _ (w : Outside) (m : Manifest) where
  emit_result-quiet :
      (r : TestResult) (o : Output) → reports (emit_result w m r o).events ≡ reports o.events
  emit_result-quiet r o = count-append_one is_report o.events _ ∙ omega arith

  stream_result-quiet :
      (selected : Option (List String)) (r : TestResult) (o : Output)
      → reports (stream_result w m selected r o).events ≡ reports o.events
  stream_result-quiet selected r o = elim (Bool-cases (should_run selected r.name)) [
    | inl e ↦ rw e (emit_result-quiet r o)
    | inr e ↦ rw e refl
  ]

  stream_results-quiet :
      (selected : Option (List String)) (rs : List TestResult) (o : Output)
      → reports (stream_results w m selected rs o).events ≡ reports o.events
  unfolding stream_results
  stream_results-quiet selected [] o = refl
  stream_results-quiet selected (r ∷ rs) o =
      stream_results-quiet selected rs (stream_result w m selected r o)
      ∙ stream_result-quiet selected r o

  write_log-quiet :
      (level message : String) (o : Output)
      → reports (write_log level message o).events ≡ reports o.events
  write_log-quiet level message o = count-append_one is_report o.events _ ∙ omega arith

  progress-quiet :
      (a : String) (n t p : ℕ) (o : Output)
      → reports (emit (progress a n t p) o).events ≡ reports o.events
  progress-quiet a n t p o = count-append_one is_report o.events _ ∙ omega arith

  crash_report-quiet :
      (label : String) (crash : Option Crash) (o : Output)
      → reports (crash_report w m label crash o).events ≡ reports o.events
  crash_report-quiet label none o = refl
  crash_report-quiet label (some crash) o =
      let o₁ = write_log "ERROR" (concat label (concat " crashed: " crash.message)) o in
      let o₂ = write_log "DEBUG" crash.traceback o₁ in
      emit_result-quiet _ o₂
      ∙ (write_log-quiet "DEBUG" crash.traceback o₁ ∙ write_log-quiet "ERROR" _ o)

  restriction-quiet :
      (label : String) (selected : Option (List String)) (o : Output)
      → reports (restriction w m label selected o).events ≡ reports o.events
  restriction-quiet label none o = refl
  restriction-quiet label (some names) o = write_log-quiet _ _ o

  run_category-quiet :
      (key : String) (n total : ℕ) (o : Output)
      → reports (run_category w m key n total o).events ≡ reports o.events
  unfolding run_category
  run_category-quiet key n total o =
      let label = category_label key in
      let selected = selected_for m.resolved_test_selection key in
      let (results, crash) = w.engine key selected in
      let o₁ = emit (progress (concat "Running " label) n total (percent n total)) o in
      let o₂ = write_log "INFO" (concat "=== " (concat label " ===")) o₁ in
      let o₃ = restriction w m label selected o₂ in
      let o₄ = stream_results w m selected results o₃ in
      let o₅ = crash_report w m label crash o₄ in
      progress-quiet _ _ _ _ o₅
      ∙ crash_report-quiet label crash o₄
      ∙ stream_results-quiet selected results o₃
      ∙ restriction-quiet label selected o₂
      ∙ write_log-quiet "INFO" _ o₁
      ∙ progress-quiet _ _ _ _ o

  run_categories-quiet :
      (keys : List String) (n total : ℕ) (o : Output)
      → reports (run_categories w m keys n total o).1.events ≡ reports o.events
  unfolding run_categories
  run_categories-quiet [] n total o = refl
  run_categories-quiet (key ∷ keys) n total o = elim (Bool-cases (w.cancelled n)) [
    | inl e ↦ rw e refl
    | inr e ↦ rw e (run_categories-quiet keys (n + 1) total _ ∙ run_category-quiet key n total o)
  ]

  announce-quiet :
      (selection : Option Selection) (o : Output)
      → reports (announce w m selection o).events ≡ reports o.events
  announce-quiet none o = refl
  announce-quiet (some []) o = refl
  announce-quiet (some (entry ∷ entries)) o = write_log-quiet "INFO" _ o

  -- The reports of `run` itself, by the way it ends.
  abbrev own_reports : Ending → ℕ
  own_reports returned = 1
  own_reports run_cancelled = 0
  own_reports (raised crash) = 0

  finish-reports :
      (r : Ending × Output)
      → reports r.1.events ≡ 0
      → reports (finish w m r).1.events ≡ own_reports (finish w m r).0
  finish-reports (returned, o) h =
      let o₁ = emit (done "completed" none (latency_summary o.latencies)) o in
      write_log-quiet "INFO" "Run complete" o₁ ∙ (emit-reports _ o ∙ omega (arith, h))
  finish-reports (run_cancelled, o) h = h
  finish-reports (raised crash, o) h = h

  run_loaded-reports :
      (crash : Option Crash) (o : Output)
      → reports o.events ≡ 0
      → reports (run_loaded w m crash o).1.events ≡ own_reports (run_loaded w m crash o).0
  run_loaded-reports (some crash) o h = h
  run_loaded-reports none o h =
      let keys = enabled_keys w m in
      let o₁ =
        write_log "INFO"
          (concat "Enabled categories: "
            (if length keys == 0 then "none" else join (map category_label keys)))
          o in
      let o₂ = announce w m m.resolved_test_selection o₁ in
      finish-reports (run_categories w m keys 0 (length keys) o₂) (
        run_categories-quiet keys 0 (length keys) o₂
        ∙ announce-quiet m.resolved_test_selection o₁
        ∙ write_log-quiet "INFO" _ o
        ∙ h)

  run_checked-reports :
      (r : Result (Unit {0})) (o : Output)
      → reports o.events ≡ 0
      → reports (run_checked w m r o).1.events ≡ own_reports (run_checked w m r o).0
  run_checked-reports (ok u) o h = run_loaded-reports _ o h
  run_checked-reports (err e) o h =
      let blocked =
        error_result (w.uuid "Setup") "Setup" "Outbound target policy check" w.block_reason in
      let o₁ = write_log "ERROR" (concat "[NETGUARD] " w.block_reason) o in
      let o₂ = emit_result w m blocked o₁ in
      let quiet =
        emit_result-quiet blocked o₁
        ∙ write_log-quiet "ERROR" (concat "[NETGUARD] " w.block_reason) o in
      emit-reports (done "failed" (some w.block_reason) (latency_summary o₂.latencies)) o₂
      ∙ omega (arith, quiet, h)

  run-reports : reports (run w m).1.events ≡ own_reports (run w m).0
  unfolding run
  run-reports = elim (Bool-cases (any (str_eq "issuer_cert") m.files)) [
    | inl e ↦ rw e (
        run_checked-reports _ _ (
          write_log-quiet "INFO"
            (concat "Run " (concat m.run_id (concat " starting against " m.config.ocsp_url)))
            (record { events = []; latencies = [] })))
    | inr e ↦ rw e refl
  ]

  last_events-reports :
      (r : Ending × Output) → reports r.1.events ≡ own_reports r.0 → reports (last_events r) ≡ 1
  last_events-reports (returned, o) h = h
  last_events-reports (run_cancelled, o) h = reports-end o.events _ ∙ omega (arith, h)
  last_events-reports (raised crash, o) h = reports-end o.events _ ∙ omega (arith, h)

-- If every call of the engine comes to an end, by returning or with an Exception, then a worker
-- reports its end exactly once, whether its run completes, is cancelled, is blocked or crashes.
pub main-reports :
    (w : Outside) (manifest : Result Manifest) (message : String)
    → reports (main w manifest message) ≡ 1
main-reports w (err e) message = refl
main-reports w (ok m) message = last_events-reports w m (run w m) (run-reports w m)

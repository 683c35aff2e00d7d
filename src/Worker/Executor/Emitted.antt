-- ===== src/Worker/Executor/Emitted.antt =====
-- The results that a category's run emits.
use Prim.Native.String.{◌++◌ as concat}
use mathlib.Core.List.{append-nil, append_assoc}
use ocspcrltesting.Runs.Storage.{Manifest}
use ocspcrltesting.Engine.Selection.{should_run}
use ocspcrltesting.Worker.Analysis.{TestResult, enrich_result}
use ocspcrltesting.Worker.Executor.Labels.{category_label, before_tests}
use ocspcrltesting.Worker.Executor.{
  Event, log, progress, result, done, fatal, Output, emit, write_log, Crash, Outside, error_result,
  emit_result, stream_result, stream_results, percent, crash_report, restriction, selected_for,
  run_category,
}
use ocspcrltesting.Prelude.{
  ℕ, String, ◌≡◌, ◌∙◌, refl, sym, ap, Option, none, some, List, [], ◌∷◌, ◌++◌, map, Bool-cases, inl,
  inr, filter, if◌then◌else◌,
}

abbrev pub results_of : List Event → List TestResult
results_of [] = []
results_of (result r ∷ events) = r ∷ results_of events
results_of (log level message ∷ events) = results_of events
results_of (progress a n t p ∷ events) = results_of events
results_of (done status error latency ∷ events) = results_of events
results_of (fatal error ∷ events) = results_of events

results_of-append : (xs ys : List Event) → results_of (xs ++ ys) ≡ results_of xs ++ results_of ys
results_of-append [] ys = refl
results_of-append (result r ∷ xs) ys = ap (λ rs. r ∷ rs) (results_of-append xs ys)
results_of-append (log level message ∷ xs) ys = results_of-append xs ys
results_of-append (progress a n t p ∷ xs) ys = results_of-append xs ys
results_of-append (done status error latency ∷ xs) ys = results_of-append xs ys
results_of-append (fatal error ∷ xs) ys = results_of-append xs ys

results_of-log :
    (level message : String) (o : Output)
    → results_of (write_log level message o).events ≡ results_of o.events
results_of-log level message o = results_of-append o.events _ ∙ append-nil (results_of o.events)

results_of-progress :
    (a : String) (n t p : ℕ) (o : Output)
    → results_of (emit (progress a n t p) o).events ≡ results_of o.events
results_of-progress a n t p o = results_of-append o.events _ ∙ append-nil (results_of o.events)

module _ (w : Outside) (m : Manifest) where
  abbrev pub enriched : TestResult → TestResult
  enriched r = enrich_result w.parse_ts w.now m.config r

  -- The result that reports an error of a category's tests.
  abbrev pub crash_results : String → Option Crash → List TestResult
  crash_results label none = []
  crash_results label (some crash) =
      enriched
        (error_result (w.uuid label) (before_tests label) (concat "Run " label) crash.message)
      ∷ []

  results_of-emit :
      (r : TestResult) (o : Output)
      → results_of (emit_result w m r o).events ≡ results_of o.events ++ enriched r ∷ []
  results_of-emit r o = results_of-append o.events _

  results_of-one :
      (selected : Option (List String)) (r : TestResult) (rs : List TestResult) (o : Output)
      → results_of (stream_result w m selected r o).events ++ map enriched rs
        ≡ results_of o.events ++ map enriched (if should_run selected r.name then r ∷ rs else rs)
  results_of-one selected r rs o = elim (Bool-cases (should_run selected r.name)) [
    | inl e ↦ rw e (
        ap (λ l. l ++ map enriched rs) (results_of-emit r o)
        ∙ append_assoc (results_of o.events) (enriched r ∷ []) (map enriched rs))
    | inr e ↦ rw e refl
  ]

  results_of-stream :
      (selected : Option (List String)) (rs : List TestResult) (o : Output)
      → results_of (stream_results w m selected rs o).events
        ≡ results_of o.events ++ map enriched (filter (λ r. should_run selected r.name) rs)
  unfolding stream_results
  results_of-stream selected [] o = sym (append-nil (results_of o.events))
  results_of-stream selected (r ∷ rs) o =
      results_of-stream selected rs (stream_result w m selected r o)
      ∙ results_of-one selected r (filter (λ x. should_run selected x.name) rs) o

  results_of-crash :
      (label : String) (crash : Option Crash) (o : Output)
      → results_of (crash_report w m label crash o).events
        ≡ results_of o.events ++ crash_results label crash
  results_of-crash label none o = sym (append-nil (results_of o.events))
  results_of-crash label (some crash) o =
      let o₁ = write_log "ERROR" (concat label (concat " crashed: " crash.message)) o in
      let o₂ = write_log "DEBUG" crash.traceback o₁ in
      results_of-emit _ o₂
      ∙ ap (λ l. l ++ crash_results label (some crash))
          (results_of-log "DEBUG" crash.traceback o₁ ∙ results_of-log "ERROR" _ o)

  results_of-restriction :
      (label : String) (selected : Option (List String)) (o : Output)
      → results_of (restriction w m label selected o).events ≡ results_of o.events
  results_of-restriction label none o = refl
  results_of-restriction label (some names) o = results_of-log "INFO" _ o

  -- The run of a category adds to the emitted results those of the category's tests that its
  -- selection admits, in their order and analysed, and after them one result that reports the
  -- error, if the tests ended with one.
  pub run_category-results :
      (key : String) (n total : ℕ) (o : Output)
      → results_of (run_category w m key n total o).events
        ≡ results_of o.events
          ++ (map enriched (
                filter
                  (λ r. should_run (selected_for m.resolved_test_selection key) r.name)
                  (w.engine key (selected_for m.resolved_test_selection key)).0)
              ++ crash_results
                  (category_label key)
                  (w.engine key (selected_for m.resolved_test_selection key)).1)
  unfolding run_category
  run_category-results key n total o =
      let label = category_label key in
      let selected = selected_for m.resolved_test_selection key in
      let (results, crash) = w.engine key selected in
      let o₁ = emit (progress (concat "Running " label) n total (percent n total)) o in
      let o₂ = write_log "INFO" (concat "=== " (concat label " ===")) o₁ in
      let o₃ = restriction w m label selected o₂ in
      let o₄ = stream_results w m selected results o₃ in
      let o₅ = crash_report w m label crash o₄ in
      let kept = map enriched (filter (λ r. should_run selected r.name) results) in
      let before : results_of o₃.events ≡ results_of o.events =
        results_of-restriction label selected o₂
        ∙ results_of-log "INFO" _ o₁
        ∙ results_of-progress _ _ _ _ o in
      results_of-progress _ _ _ _ o₅
      ∙ results_of-crash label crash o₄
      ∙ ap (λ l. l ++ crash_results label crash)
          (results_of-stream selected results o₃ ∙ ap (λ l. l ++ kept) before)
      ∙ append_assoc (results_of o.events) kept (crash_results label crash)

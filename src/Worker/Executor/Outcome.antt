-- ===== src/Worker/Executor/Outcome.antt =====
-- The worker and its supervisor together: the row of a run after its worker has exited.
use Prim.Native.String.{◌++◌ as concat}
use ocspcrltesting.Jobs.{RunStore, get_run}
use ocspcrltesting.Jobs.Supervisor.{Happening, line, exited, WorkerEvent, supervise}
use ocspcrltesting.Jobs.Supervisor.Verdict.{
  or_else, or_else-none, or_else_assoc, reported, last_report, is_cancel, verdict, Concluded,
  supervise-verdict,
}
use ocspcrltesting.Runs.Storage.{Manifest}
use ocspcrltesting.Runs.Creation.{targets}
use ocspcrltesting.Ssrf.Url.{validate_urls}
use ocspcrltesting.Worker.Analysis.{TestResult}
use ocspcrltesting.Worker.Executor.Latency.{Summary, latency_summary}
use ocspcrltesting.Worker.Executor.{
  Event, log, progress, result, done, fatal, Output, emit, write_log, Crash, Outside, emit_result,
  error_result, Ending, returned, run_cancelled, raised, run_categories, enabled_keys, finish,
  first_crash, run_loaded, run_checked, run, last_events, main,
}
use ocspcrltesting.Prelude.{
  ℕ, ◌+◌, String, ◌≡◌, ◌∙◌, refl, sym, ap, subst, Bool, true, false, ◌||◌, Option, none, some, List,
  [], ◌∷◌, ◌++◌, map, Bool-cases, inl, inr, any, str_eq, if◌then◌else◌, is_some, Result, ok, err,
}

-- A line as the supervisor reads it; `spare` are its ids for a result, and `dumps` writes a summary.
abbrev as_line : (TestResult → String × String) → (Summary → String) → Event → WorkerEvent
as_line spare dumps (log level message) = WorkerEvent.log level message
as_line spare dumps (progress a n t p) = WorkerEvent.progress (some a)
as_line spare dumps (result r) =
    WorkerEvent.result
      (record {
        id = some r.id;
        category = r.category;
        name = r.name;
        status = some r.status;
        message = r.message;
      })
      (spare r)
as_line spare dumps (done status error latency) =
    WorkerEvent.done (some status) error (some (dumps latency))
as_line spare dumps (fatal error) = WorkerEvent.fatal (some error)

abbrev pub lines_of :
    (TestResult → String × String) → (Summary → String) → List Event → List Happening
lines_of spare dumps events = map (λ e. line (as_line spare dumps e)) events

-- The request to cancel is seen before one of the categories.
abbrev cancelled_within : (ℕ → Bool) → ℕ → List String → Bool
cancelled_within cancelled n [] = false
cancelled_within cancelled n (key ∷ keys) = cancelled n || cancelled_within cancelled (n + 1) keys

abbrev loaded_outcome : Outside → Manifest → Option Crash → String
loaded_outcome w m (some crash) = "failed"
loaded_outcome w m none =
    if cancelled_within w.cancelled 0 (enabled_keys w m) then "cancelled" else "completed"

abbrev checked_outcome : Outside → Manifest → Result (Unit {0}) → String
checked_outcome w m (err e) = "failed"
checked_outcome w m (ok u) =
    loaded_outcome w m
      (first_crash w m ("issuer_cert" ∷ "good_cert" ∷ "revoked_cert" ∷ "unknown_ca_cert" ∷ []))

-- A run fails without a manifest, an issuer, allowed targets or loadable certificates; it is
-- cancelled if the request is seen before a category; and otherwise it is completed.
abbrev pub outcome : Outside → Result Manifest → String
outcome w (err e) = "failed"
outcome w (ok m) =
    if any (str_eq "issuer_cert") m.files
    then checked_outcome w m (validate_urls w.resolve (targets w.parse_url m.config) m.policy)
    else "failed"

module _ (spare : TestResult → String × String) (dumps : Summary → String) where
  abbrev lines : List Event → List Happening
  lines events = lines_of spare dumps events

  last_report-append :
      (xs ys : List Event)
      → last_report (lines (xs ++ ys)) ≡ or_else (last_report (lines ys)) (last_report (lines xs))
  last_report-append [] ys = sym (or_else-none (λ s. s) "" (last_report (lines ys)))
  last_report-append (x ∷ xs) ys =
      ap (λ o. or_else o (reported (as_line spare dumps x))) (last_report-append xs ys)
      ∙ sym (or_else_assoc (last_report (lines ys)) (last_report (lines xs)) _)

  no_cancel : (xs : List Event) → any is_cancel (lines xs) ≡ false
  no_cancel [] = refl
  no_cancel (x ∷ xs) = no_cancel xs

  module _ (w : Outside) (m : Manifest) where
    stopped :
        (keys : List String) (n total : ℕ) (o : Output)
        → (run_categories w m keys n total o).0
          ≡ (if cancelled_within w.cancelled n keys then run_cancelled else returned)
    unfolding run_categories
    stopped [] n total o = refl
    stopped (key ∷ keys) n total o = elim (Bool-cases (w.cancelled n)) [
      | inl e ↦ rw e refl
      | inr e ↦ rw e (stopped keys (n + 1) total _)
    ]

    finish-last :
        (r : Ending × Output) (cancelled : Bool)
        → r.0 ≡ (if cancelled then run_cancelled else returned)
        → last_report (lines (last_events (finish w m r)))
          ≡ some (if cancelled then "cancelled" else "completed")
    finish-last (returned, o) true h = absurd (cc h)
    finish-last (returned, o) false h =
        let o₁ = emit (done "completed" none (latency_summary o.latencies)) o in
        last_report-append o₁.events _ ∙ last_report-append o.events _
    finish-last (run_cancelled, o) true h = last_report-append o.events _
    finish-last (run_cancelled, o) false h = absurd (cc h)
    finish-last (raised crash, o) true h = absurd (cc h)
    finish-last (raised crash, o) false h = absurd (cc h)

    loaded-last :
        (crash : Option Crash) (o : Output)
        → last_report (lines (last_events (run_loaded w m crash o)))
          ≡ some (loaded_outcome w m crash)
    loaded-last (some crash) o = last_report-append o.events _
    loaded-last none o = finish-last _ _ (stopped (enabled_keys w m) 0 _ _)

    checked-last :
        (r : Result (Unit {0})) (o : Output)
        → last_report (lines (last_events (run_checked w m r o))) ≡ some (checked_outcome w m r)
    checked-last (err e) o =
        let o₁ = write_log "ERROR" (concat "[NETGUARD] " w.block_reason) o in
        let o₂ =
          emit_result w m
            (error_result (w.uuid "Setup") "Setup" "Outbound target policy check" w.block_reason)
            o₁ in
        last_report-append o₂.events
          (done "failed" (some w.block_reason) (latency_summary o₂.latencies) ∷ [])
    checked-last (ok u) o = loaded-last _ o

    run-last : last_report (lines (last_events (run w m))) ≡ some (outcome w (ok m))
    unfolding run
    run-last = elim (Bool-cases (any (str_eq "issuer_cert") m.files)) [
      | inl e ↦ rw e (checked-last _ _)
      | inr e ↦ rw e refl
    ]

  main-last :
      (w : Outside) (manifest : Result Manifest) (message : String)
      → last_report (lines (main w manifest message)) ≡ some (outcome w manifest)
  main-last w (err e) message = refl
  main-last w (ok m) message = run-last w m

  main-verdict :
      (w : Outside) (manifest : Result Manifest) (message : String)
      → verdict (lines (main w manifest message)) exited ≡ outcome w manifest
  main-verdict w manifest message =
      rw (main-last w manifest message, no_cancel (main w manifest message)) refl

-- If the row of a run exists, its supervisor reads exactly the lines of its worker, and then the
-- worker exits, the row has the status that `outcome` computes from what the worker was given, the
-- end time and no current activity.
pub supervised-outcome :
    (spare : TestResult → String × String) (dumps : Summary → String) (lower : String → String)
    (run_id : String) (now : ℕ) (w : Outside) (manifest : Result Manifest) (message : String)
    (s : RunStore)
    → is_some (get_run run_id s) ≡ true
    → Concluded now (outcome w manifest) (
        get_run run_id
          (supervise lower run_id now (lines_of spare dumps (main w manifest message)) exited s))
supervised-outcome spare dumps lower run_id now w manifest message s there =
    subst
      (λ status. Concluded now status (
        get_run run_id
          (supervise lower run_id now (lines_of spare dumps (main w manifest message)) exited s)))
      (main-verdict spare dumps w manifest message)
      (supervise-verdict lower run_id now (lines_of spare dumps (main w manifest message)) exited s
        there)

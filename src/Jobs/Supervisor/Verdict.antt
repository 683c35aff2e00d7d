-- ===== src/Jobs/Supervisor/Verdict.antt =====
-- The final row of a supervised run against an independent account of its outcome.
use mathlib.Core.Option
use ocspcrltesting.Schema.{Run, snapshot}
use ocspcrltesting.Jobs.{RunStore, is_terminal, get_run}
use ocspcrltesting.Jobs.Events.{next_seq, get_run-update_run, get_run-append_event}
use ocspcrltesting.Jobs.Supervisor.{
  WorkerEvent, done, fatal, result, progress, log, Happening, line, cancel, Ending, exited, expired,
  crashed, Supervision, handle_event, happen, consume, log_error, ended, died, resolve, finalized,
  with_snapshot, finalize, start, settle, supervise,
}
use ocspcrltesting.Jobs.Supervisor.Endings.{settle-Exists}
use ocspcrltesting.Prelude.{
  ℕ, String, ◌≡◌, refl, sym, ap, ◌∙◌, subst, inl, inr, Bool, true, false, ◌&&◌, ◌||◌, Option, none,
  some, List, [], ◌∷◌, arith, str_eq, if◌then◌else◌, is_some, get_or, Bool-cases, any,
}

-- The outcome that the worker itself reports last, if any.
abbrev pub or_else : Option String → Option String → Option String
or_else none o = o
or_else (some s) o = some s

abbrev pub reported : WorkerEvent → Option String
reported (done status error latency) = some (get_or status "completed")
reported (fatal error) = some "failed"
reported (result r spare) = none
reported (progress current) = none
reported (log level message) = none

abbrev pub last_report : List Happening → Option String
last_report [] = none
last_report (line e ∷ hs) = or_else (last_report hs) (reported e)
last_report (cancel ∷ hs) = last_report hs

abbrev pub is_cancel : Happening → Bool
is_cancel (line e) = false
is_cancel cancel = true

abbrev after_exit : Option String → Bool → String
after_exit none cancelled = if cancelled then "cancelled" else "failed"
after_exit (some status) cancelled =
    if cancelled && str_eq status "completed" then "cancelled" else status

-- The outcome of a run, from what happened alone.
abbrev pub verdict : List Happening → Ending → String
verdict schedule exited = after_exit (last_report schedule) (any is_cancel schedule)
verdict schedule expired = "timed_out"
verdict schedule crashed = "failed"

pub or_else_assoc : (a b c : Option String) → or_else a (or_else b c) ≡ or_else (or_else a b) c
or_else_assoc none b c = refl
or_else_assoc (some a) b c = refl

module _ (lower : String → String) (run_id : String) where
  handle_event-terminal :
      (e : WorkerEvent) (v : Supervision)
      → (handle_event lower run_id e v).terminal_from_worker
        ≡ or_else (reported e) v.terminal_from_worker
  unfolding handle_event
  handle_event-terminal (done status error latency) v = refl
  handle_event-terminal (fatal error) v = refl
  handle_event-terminal (result r spare) v = refl
  handle_event-terminal (progress current) v = refl
  handle_event-terminal (log level message) v = refl

  handle_event-cancel :
      (e : WorkerEvent) (v : Supervision)
      → (handle_event lower run_id e v).cancel_requested ≡ v.cancel_requested
  unfolding handle_event
  handle_event-cancel (done status error latency) v = refl
  handle_event-cancel (fatal error) v = refl
  handle_event-cancel (result r spare) v = refl
  handle_event-cancel (progress current) v = refl
  handle_event-cancel (log level message) v = refl

  consume-terminal :
      (hs : List Happening) (v : Supervision)
      → (consume lower run_id hs v).terminal_from_worker
        ≡ or_else (last_report hs) v.terminal_from_worker
  unfolding consume happen
  consume-terminal [] v = refl
  consume-terminal (line e ∷ hs) v =
      consume-terminal hs (handle_event lower run_id e v)
      ∙ ap (or_else (last_report hs)) (handle_event-terminal e v)
      ∙ or_else_assoc (last_report hs) (reported e) v.terminal_from_worker
  consume-terminal (cancel ∷ hs) v = consume-terminal hs (record v { cancel_requested = true })

  consume-cancel :
      (hs : List Happening) (v : Supervision)
      → (consume lower run_id hs v).cancel_requested ≡ any is_cancel hs || v.cancel_requested
  unfolding consume happen
  consume-cancel [] v = refl
  consume-cancel (line e ∷ hs) v =
      consume-cancel hs (handle_event lower run_id e v)
      ∙ ap (λ b. any is_cancel hs || b) (handle_event-cancel e v)
  consume-cancel (cancel ∷ hs) v =
      consume-cancel hs (record v { cancel_requested = true }) ∙ ground arith

  resolve-terminal :
      (status : Option String) (v : Supervision)
      → v.terminal_from_worker ≡ status
      → (resolve lower run_id status v).terminal_from_worker
        ≡ some (after_exit status v.cancel_requested)
  unfolding resolve died log_error
  resolve-terminal none v h = elim (Bool-cases v.cancel_requested) [ inl e ↦ rw e | inr e ↦ rw e ]
  resolve-terminal (some status) v h =
      elim (Bool-cases (v.cancel_requested && str_eq status "completed")) [
        | inl e ↦ rw e
        | inr e ↦ rw e h
      ]

  pub or_else-none : (o : Option String) → or_else o none ≡ o
  or_else-none none = refl
  or_else-none (some s) = refl

  not_completed :
      (status : String) (cancelled : Bool)
      → str_eq status "completed" ≡ false
      → after_exit (some status) cancelled ≡ status
  not_completed status cancelled h = ground (arith, h)

  settle-verdict :
      (schedule : List Happening) (ending : Ending) (s : RunStore)
      → (settle lower run_id schedule ending s).terminal_from_worker
        ≡ some (verdict schedule ending)
  unfolding settle ended log_error start
  settle-verdict schedule exited s =
      let begun = start lower run_id s in
      let read = consume lower run_id schedule begun in
      resolve-terminal read.terminal_from_worker read refl
      ∙ rw
          (
            consume-terminal schedule begun,
            consume-cancel schedule begun,
            or_else-none (last_report schedule),
          )
          (ground arith)
  settle-verdict schedule expired s =
      resolve-terminal (some "timed_out") _ refl ∙ ap some (not_completed "timed_out" _ refl)
  settle-verdict schedule crashed s =
      resolve-terminal (some "failed") _ refl ∙ ap some (not_completed "failed" _ refl)

  with_snapshot_row :
      (s : RunStore) (o : Option Run)
      → get_run run_id s ≡ o
      → get_run run_id (with_snapshot lower run_id s o) ≡ Option.map next_seq o
  unfolding with_snapshot
  with_snapshot_row s none h = h
  with_snapshot_row s (some run) h =
      get_run-append_event run_id "run_status" (snapshot run) s ∙ ap (Option.map next_seq) h

  finalize_row :
      (now : ℕ) (status : String) (error latency : Option String) (s : RunStore)
      → get_run run_id (finalize lower run_id now status error latency s)
        ≡ Option.map next_seq
            (Option.map (finalized lower run_id now status error latency) (get_run run_id s))
  unfolding finalize finalized
  finalize_row now status error latency s =
      with_snapshot_row _ _ refl
      ∙ ap (Option.map next_seq) (
          get_run-update_run run_id (finalized lower run_id now status error latency) s (λ r. refl))

-- The row has the outcome, the end time and no activity; a row there is.
abbrev pub Concluded : ℕ → String → Option Run → Type 0
Concluded now status none = ⊥
Concluded now status (some r) =
    (r.status ≡ status) × (r.finished_at ≡ some now) × (r.current_activity ≡ none)

finalized-Concluded :
    (lower : String → String) (run_id : String) (now : ℕ) (status : String)
    (error latency : Option String) (o : Option Run)
    → is_some o ≡ true
    → Concluded now status
        (Option.map next_seq (Option.map (finalized lower run_id now status error latency) o))
unfolding finalized
finalized-Concluded lower run_id now status error latency none h = ground (arith, h)
finalized-Concluded lower run_id now status error latency (some r) h = (refl, refl, refl)

pub finalize-Concluded :
    (lower : String → String) (run_id : String) (now : ℕ) (status : String)
    (error latency : Option String) (s : RunStore)
    → is_some (get_run run_id s) ≡ true
    → Concluded now status (get_run run_id (finalize lower run_id now status error latency s))
finalize-Concluded lower run_id now status error latency s h =
    rw (finalize_row lower run_id now status error latency s)
      (finalized-Concluded lower run_id now status error latency (get_run run_id s) h)

-- If the run's row exists, then after its supervisor, whatever happened and however the worker
-- ended, the row has the status that `verdict` computes from the happenings alone, the end time
-- and no current activity.
pub supervise-verdict :
    (lower : String → String) (run_id : String) (now : ℕ) (schedule : List Happening)
    (ending : Ending) (s : RunStore)
    → is_some (get_run run_id s) ≡ true
    → Concluded now
        (verdict schedule ending)
        (get_run run_id (supervise lower run_id now schedule ending s))
unfolding supervise
supervise-verdict lower run_id now schedule ending s h =
    let v = settle lower run_id schedule ending s in
    rw (settle-verdict lower run_id schedule ending s) (
      finalize-Concluded lower run_id now (verdict schedule ending) v.worker_error v.latency v.store
        (settle-Exists lower run_id schedule ending s h))

-- The statuses that the worker's last events bring are terminal ones.
abbrev pub TerminalReport : Option String → Type 0
TerminalReport none = Unit
TerminalReport (some status) = is_terminal status ≡ true

abbrev pub HasTerminalReports : List Happening → Type 0
HasTerminalReports [] = Unit
HasTerminalReports (line e ∷ hs) = TerminalReport (reported e) × HasTerminalReports hs
HasTerminalReports (cancel ∷ hs) = HasTerminalReports hs

TerminalReport-or_else :
    (a b : Option String) → TerminalReport a → TerminalReport b → TerminalReport (or_else a b)
TerminalReport-or_else none b h k = k
TerminalReport-or_else (some a) b h k = h

last_report-TerminalReport :
    (hs : List Happening) → HasTerminalReports hs → TerminalReport (last_report hs)
last_report-TerminalReport [] h = tt
last_report-TerminalReport (line e ∷ hs) h =
    TerminalReport-or_else (last_report hs) (reported e) (last_report-TerminalReport hs h.1) h.0
last_report-TerminalReport (cancel ∷ hs) h = last_report-TerminalReport hs h

-- Terminal, and not completed if the user has asked to cancel.
abbrev pub IsFinal : Bool → String → Type 0
IsFinal false status = is_terminal status ≡ true
IsFinal true status = (is_terminal status ≡ true) × (str_eq status "completed" ≡ false)

after_exit-IsFinal :
    (o : Option String) (cancelled : Bool)
    → TerminalReport o
    → IsFinal cancelled (after_exit o cancelled)
unfolding is_terminal
after_exit-IsFinal none true h = (refl, refl)
after_exit-IsFinal none false h = refl
after_exit-IsFinal (some status) false h = h
after_exit-IsFinal (some status) true h = elim (Bool-cases (str_eq status "completed")) [
  | inl e ↦ rw e (refl, refl)
  | inr e ↦ rw e (h, e)
]

verdict-IsFinal :
    (schedule : List Happening) (ending : Ending)
    → HasTerminalReports schedule
    → IsFinal (any is_cancel schedule) (verdict schedule ending)
unfolding is_terminal
verdict-IsFinal schedule exited h = after_exit-IsFinal _ _ (last_report-TerminalReport schedule h)
verdict-IsFinal schedule expired h = elim (Bool-cases (any is_cancel schedule)) [
  | inl e ↦ rw e (refl, refl)
  | inr e ↦ rw e refl
]
verdict-IsFinal schedule crashed h = elim (Bool-cases (any is_cancel schedule)) [
  | inl e ↦ rw e (refl, refl)
  | inr e ↦ rw e refl
]

abbrev pub RowIsFinal : Bool → Option Run → Type 0
RowIsFinal cancelled none = ⊥
RowIsFinal cancelled (some r) = IsFinal cancelled r.status

Concluded-RowIsFinal :
    (cancelled : Bool) (now : ℕ) (status : String) (o : Option Run)
    → IsFinal cancelled status
    → Concluded now status o
    → RowIsFinal cancelled o
Concluded-RowIsFinal cancelled now status none h k = k
Concluded-RowIsFinal cancelled now status (some r) h k = subst (IsFinal cancelled) (sym k.0) h

-- If the run's row exists and every status that the worker reports is a terminal one, then after
-- the supervisor the row's status is terminal, and it is not "completed" if there was a request to
-- cancel.
pub supervise-IsFinal :
    (lower : String → String) (run_id : String) (now : ℕ) (schedule : List Happening)
    (ending : Ending) (s : RunStore)
    → is_some (get_run run_id s) ≡ true
    → HasTerminalReports schedule
    → RowIsFinal
        (any is_cancel schedule)
        (get_run run_id (supervise lower run_id now schedule ending s))
supervise-IsFinal lower run_id now schedule ending s h reports =
    Concluded-RowIsFinal (any is_cancel schedule) now (verdict schedule ending) _
      (verdict-IsFinal schedule ending reports)
      (supervise-verdict lower run_id now schedule ending s h)

-- ===== src/Jobs/Supervisor/Endings.antt =====
-- What holds of a run when its supervisor has finished, whatever happened and however it ended.
use mathlib.Core.Option
use ocspcrltesting.Schema.{Run, Payload}
use ocspcrltesting.Jobs.{RunStore, ResultIn, get_run, update_run, append_event, persist_result}
use ocspcrltesting.Jobs.Events.{get_run-update_run, get_run-append_event, get_run-persist_result}
use ocspcrltesting.Jobs.Events.Numbers.{
  IsNumbered, append_event-IsNumbered, update_run-IsNumbered, persist_result-IsNumbered,
}
use ocspcrltesting.Jobs.Supervisor.{
  WorkerEvent, done, fatal, result, progress, log, Happening, line, cancel, Ending, exited, expired,
  crashed, Supervision, handle_event, happen, consume, log_error, ended, died, resolve, finalized,
  with_snapshot, finalize, start, settle, supervise,
}
use ocspcrltesting.Prelude.{
  ℕ, String, ◌≡◌, refl, inl, inr, true, ◌&&◌, Option, none, some, List, [], ◌∷◌, str_eq, is_some,
  Bool-cases,
}

-- A property of stores that every operation on the run keeps is kept by its supervisor.
record IsKept (lower : String → String) (run_id : String) (P : RunStore → Type 0) : Type 0 where
  appended :
      (kind : String) (payload : Payload) (s : RunStore)
      → P s
      → P (append_event run_id kind payload s)
  updated :
      (f : Run → Run) (s : RunStore)
      → ((r : Run) → (f r).id ≡ r.id)
      → ((r : Run) → (f r).last_seq ≡ r.last_seq)
      → P s
      → P (update_run run_id f s)
  persisted :
      (r : ResultIn) (spare : String × String) (s : RunStore)
      → P s
      → P (persist_result lower run_id r spare s)

module _ (lower : String → String) (run_id : String) (P : RunStore → Type 0)
    (kept : IsKept lower run_id P) where
  handle_event-kept :
      (e : WorkerEvent) (v : Supervision) → P v.store → P (handle_event lower run_id e v).store
  unfolding handle_event
  handle_event-kept (done status error latency) v h = h
  handle_event-kept (fatal error) v h = kept.appended _ _ _ h
  handle_event-kept (result r spare) v h = kept.appended _ _ _ (kept.persisted r spare v.store h)
  handle_event-kept (progress current) v h =
      kept.appended _ _ _ (kept.updated _ v.store (λ r. refl) (λ r. refl) h)
  handle_event-kept (log level message) v h = kept.appended _ _ _ h

  consume-kept :
      (schedule : List Happening) (v : Supervision)
      → P v.store
      → P (consume lower run_id schedule v).store
  unfolding consume happen
  consume-kept [] v h = h
  consume-kept (line e ∷ hs) v h =
      consume-kept hs (handle_event lower run_id e v) (handle_event-kept e v h)
  consume-kept (cancel ∷ hs) v h = consume-kept hs (record v { cancel_requested = true }) h

  ended-kept :
      (ending : Ending) (v : Supervision) → P v.store → P (ended lower run_id ending v).store
  unfolding ended log_error
  ended-kept exited v h = h
  ended-kept expired v h = kept.appended _ _ _ h
  ended-kept crashed v h = h

  resolve-kept :
      (status : Option String) (v : Supervision)
      → P v.store
      → P (resolve lower run_id status v).store
  unfolding resolve died log_error
  resolve-kept none v h = elim (Bool-cases v.cancel_requested) [
    | inl e ↦ rw e h
    | inr e ↦ rw e (kept.appended _ _ _ h)
  ]
  resolve-kept (some status) v h =
      elim (Bool-cases (v.cancel_requested && str_eq status "completed")) [
        | inl e ↦ rw e h
        | inr e ↦ rw e h
      ]

  settle-kept :
      (schedule : List Happening) (ending : Ending) (s : RunStore)
      → P s
      → P (settle lower run_id schedule ending s).store
  unfolding settle start
  settle-kept schedule ending s h =
      let begun = start lower run_id s in
      let read = consume lower run_id schedule begun in
      let stopped = ended lower run_id ending read in
      resolve-kept stopped.terminal_from_worker stopped
        (ended-kept ending read (consume-kept schedule begun h))

  with_snapshot-kept : (s : RunStore) (o : Option Run) → P s → P (with_snapshot lower run_id s o)
  unfolding with_snapshot
  with_snapshot-kept s none h = h
  with_snapshot-kept s (some run) h = kept.appended _ _ _ h

  finalize-kept :
      (now : ℕ) (status : String) (error latency : Option String) (s : RunStore)
      → P s
      → P (finalize lower run_id now status error latency s)
  unfolding finalize finalized
  finalize-kept now status error latency s h =
      with_snapshot-kept _ _
        (kept.updated (finalized lower run_id now status error latency) s (λ r. refl) (λ r. refl) h)

  supervise-kept :
      (now : ℕ) (schedule : List Happening) (ending : Ending) (s : RunStore)
      → P s
      → P (supervise lower run_id now schedule ending s)
  unfolding supervise
  supervise-kept now schedule ending s h =
      finalize-kept now _ _ _ _ (settle-kept schedule ending s h)

IsNumbered-IsKept :
    (lower : String → String) (run_id id : String) → IsKept lower run_id (IsNumbered id)
IsNumbered-IsKept lower run_id id = record {
  appended = λ kind payload s h. append_event-IsNumbered run_id id kind payload s h;
  updated = λ f s keeps counts h. update_run-IsNumbered run_id id f s keeps counts h;
  persisted = λ r spare s h. persist_result-IsNumbered lower run_id id r spare s h;
}

-- If the events of a run, this one or another, have the numbers 1 to its `last_seq` in order, each
-- once, then they have after the supervisor of a run, whatever happened and however the worker
-- ended.
pub supervise-IsNumbered :
    (lower : String → String) (run_id id : String) (now : ℕ) (schedule : List Happening)
    (ending : Ending) (s : RunStore)
    → IsNumbered id s
    → IsNumbered id (supervise lower run_id now schedule ending s)
supervise-IsNumbered lower run_id id now schedule ending s h =
    supervise-kept lower run_id (IsNumbered id) (IsNumbered-IsKept lower run_id id) now schedule
      ending s h

is_some-map : (f : Run → Run) (o : Option Run) → is_some o ≡ true → is_some (Option.map f o) ≡ true
is_some-map f none h = h
is_some-map f (some r) h = refl

abbrev Exists : String → RunStore → Type 0
Exists run_id s = is_some (get_run run_id s) ≡ true

Exists-IsKept : (lower : String → String) (run_id : String) → IsKept lower run_id (Exists run_id)
Exists-IsKept lower run_id = record {
  appended =
      λ kind payload s h. rw (get_run-append_event run_id kind payload s) (is_some-map _ _ h);
  updated = λ f s keeps counts h. rw (get_run-update_run run_id f s keeps) (is_some-map _ _ h);
  persisted = λ r spare s h. rw (get_run-persist_result lower run_id r spare s) (is_some-map _ _ h);
}

pub settle-Exists :
    (lower : String → String) (run_id : String) (schedule : List Happening) (ending : Ending)
    (s : RunStore)
    → is_some (get_run run_id s) ≡ true
    → is_some (get_run run_id (settle lower run_id schedule ending s).store) ≡ true
settle-Exists lower run_id schedule ending s h =
    settle-kept lower run_id (Exists run_id) (Exists-IsKept lower run_id) schedule ending s h

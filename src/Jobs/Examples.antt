-- ===== src/Jobs/Examples.antt =====
-- The life of a run at concrete happenings: one result, a request to cancel, and a late "completed".
use ocspcrltesting.Schema.{Run}
use ocspcrltesting.Jobs.{
  RunStore, ResultIn, get_run, persist_result, mark_orphans_failed, active_run_count,
}
use ocspcrltesting.Jobs.Events.Numbers.{IsNumbered}
use ocspcrltesting.Jobs.Supervisor.{
  Happening, line, cancel, done, result, fatal, log, exited, expired, supervise,
}
use ocspcrltesting.Jobs.Supervisor.Endings.{supervise-IsNumbered}
use ocspcrltesting.Jobs.Supervisor.Verdict.{
  Concluded, verdict, RowIsFinal, supervise-verdict, supervise-IsFinal,
}
use ocspcrltesting.Samples.{run, store}
use ocspcrltesting.Prelude.{String, ◌≡◌, refl, none, some, [], ◌∷◌, List, true}

abbrev lower : String → String
lower s = s

abbrev passed : ResultIn
passed = record {
  id = none;
  category = "protocol";
  name = "HTTP GET transport";
  status = some "PASS";
  message = "";
}

abbrev schedule : List Happening
schedule =
    line (log "INFO" "started")
    ∷ line (result passed ("u1", "u2"))
    ∷ cancel
    ∷ line (done (some "completed") none none)
    ∷ []

abbrev final : RunStore
final = supervise lower "r1" 90 schedule exited store

supervise-IsNumbered_example : IsNumbered "r1" final
unfolding get_run
supervise-IsNumbered_example = supervise-IsNumbered lower "r1" "r1" 90 schedule exited store refl

supervise-verdict_example : Concluded 90 "cancelled" (get_run "r1" final)
unfolding get_run
supervise-verdict_example = supervise-verdict lower "r1" 90 schedule exited store refl

supervise-IsFinal_example : RowIsFinal true (get_run "r1" final)
unfolding get_run ocspcrltesting.Jobs.is_terminal
supervise-IsFinal_example =
    supervise-IsFinal lower "r1" 90 schedule exited store refl (tt, (tt, (refl, tt)))

-- A worker that reports nothing, and one that runs too long.
died : verdict [] exited ≡ "failed"
died = refl

late : Concluded 90 "timed_out" (get_run "r1" (supervise lower "r1" 90 schedule expired store))
unfolding supervise get_run ocspcrltesting.Jobs.Supervisor.finalize ocspcrltesting.Jobs.update_run
    ocspcrltesting.Jobs.Supervisor.settle ocspcrltesting.Jobs.append_event persist_result
late = (refl, refl, refl)

abbrev stored : RunStore
stored =
    persist_result lower "r1" passed ("u1", "u2")
      (persist_result lower "r1" passed ("u1", "u3") store)

abbrev finished_run : Run
finished_run = record run { id = "r2"; status = "completed" }

abbrev both : RunStore
both = record store { runs = run ∷ finished_run ∷ [] }

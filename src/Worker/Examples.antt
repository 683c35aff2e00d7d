-- ===== src/Worker/Examples.antt =====
-- A worker's run of two categories, and requests of its engine, at concrete values.
use Prim.Native.String.{◌++◌ as concat}
use ocspcrltesting.Jobs.{get_run}
use ocspcrltesting.Jobs.Supervisor.{exited, supervise}
use ocspcrltesting.Jobs.Supervisor.Verdict.{Concluded}
use ocspcrltesting.Ssrf.Address.{v4}
use ocspcrltesting.Ssrf.Policy.{NetworkPolicy}
use ocspcrltesting.Ssrf.Url.{ParsedUrl, Resolver}
use ocspcrltesting.Engine.Selection.{should_run}
use ocspcrltesting.Runs.Storage.{Manifest}
use ocspcrltesting.Worker.Analysis.{TestResult}
use ocspcrltesting.Worker.Executor.Labels.{category_label}
use ocspcrltesting.Worker.Executor.Latency.{Summary}
use ocspcrltesting.Worker.Executor.{Output, Crash, Outside, error_result, main, run_category}
use ocspcrltesting.Worker.Executor.Reports.{reports, main-reports}
use ocspcrltesting.Worker.Executor.Emitted.{
  results_of, enriched, crash_results, run_category-results,
}
use ocspcrltesting.Worker.Executor.Outcome.{outcome, lines_of, supervised-outcome}
use ocspcrltesting.Worker.Netguard.{
  Sent, Answer, seconds, AllSent, IsGuarded, guarded_send, guarded_send_sound,
}
use ocspcrltesting.Samples.{config, store}
use ocspcrltesting.Prelude.{
  ℕ, ◌≤◌, String, ◌≡◌, refl, true, false, Option, none, some, List, [], ◌∷◌, ◌++◌, map, filter,
  length, ok,
}

abbrev policy : NetworkPolicy
policy = record {
  allow_private = false;
  allow_redirects = false;
  max_response_bytes = 10;
  max_timeout_seconds = 30;
  blocked_hosts = [];
}

abbrev parse_url : String → ParsedUrl
parse_url text = record {
  scheme = "http";
  hostname = some "ocsp.example";
  port = none;
  netloc = "ocsp.example";
}

abbrev to_public : Resolver
to_public host = some (some (v4 0x08080808) ∷ [])

abbrev passed : String → TestResult
passed name = record (error_result "t1" "Status" name "") { status = "PASS" }

abbrev crash : Crash
crash = record { message = "timed out"; traceback = "Traceback" }

-- Every category answers with two results, and the second one ends with an error.
abbrev engine : String → Option (List String) → List TestResult × Option Crash
engine key selected = (
  passed "Unknown CA returns unknown" ∷ passed "Non-issued certificate handling" ∷ [],
  some crash,
)

abbrev w : Outside
w = record {
  resolve = to_public;
  parse_url = parse_url;
  parse_ts = λ text. none;
  now = 1000;
  block_reason = "private address";
  load_cert = λ slot. none;
  uuid = λ label. concat "id of " label;
  engine = engine;
  cancelled = λ n. false;
}

abbrev manifest : Manifest
manifest = record {
  run_id = "r1";
  config = config;
  resolved_test_selection = some (("status", "Unknown CA returns unknown" ∷ []) ∷ []);
  files = "issuer_cert" ∷ [];
  policy = policy;
}

main-reports_example : reports (main w (ok manifest) "") ≡ 1
main-reports_example = main-reports w (ok manifest) ""

abbrev spare : TestResult → String × String
spare r = ("spare", "other")

abbrev dumps : Summary → String
dumps latency = "{}"

supervised-outcome_example : Concluded 99 (outcome w (ok manifest)) (
    get_run "r1"
      (supervise (λ s. s) "r1" 99 (lines_of spare dumps (main w (ok manifest) "")) exited store))
unfolding get_run
supervised-outcome_example =
    supervised-outcome spare dumps (λ s. s) "r1" 99 w (ok manifest) "" store refl

abbrev begun : Output
begun = record { events = []; latencies = [] }

run_category-results_example :
    results_of (run_category w manifest "status" 0 1 begun).events
    ≡ []
      ++ (map (enriched w manifest) (
            filter
              (λ r. should_run (some ("Unknown CA returns unknown" ∷ [])) r.name)
              (engine "status" none).0)
          ++ crash_results w manifest (category_label "status") (some crash))
run_category-results_example = run_category-results w manifest "status" 0 1 begun

abbrev send : Sent → Answer
send request = record {
  is_redirect = false;
  content_length = none;
  chunks = (1 ∷ 2 ∷ []) ∷ (3 ∷ []) ∷ [];
}

guarded_send_sound_example :
    AllSent
      (IsGuarded to_public policy (parse_url "u") (seconds 120))
      (guarded_send to_public send policy (parse_url "u") (seconds 120) true).1
    × ((content : List ℕ)
        → (guarded_send to_public send policy (parse_url "u") (seconds 120) true).0 ≡ ok content
        → length content ≤ 10)
guarded_send_sound_example =
    guarded_send_sound to_public send policy (parse_url "u") (seconds 120) true

-- ===== src/Runs/Creation.antt =====
-- backend/app/api/runs.py: the creation of a run and its repetition. The id (`uuid4`) and the time are
-- arguments; the resolver, `urlparse`, the parsers of certificates and `str.encode` are parameters.
-- The worker is spawned without an error, and a request is one step: in the source other requests can
-- come between the count of the unfinished runs and the new row.
pub mod Examples
pub mod Launched
pub mod Checks
pub mod Bounds
pub mod Checked
pub mod Limits
use ocspcrltesting.Schemas.{RunConfig, TestSelection, Selection, model_validate}
use ocspcrltesting.Schema.{Run, Db}
use ocspcrltesting.Settings.{Settings}
use ocspcrltesting.Authz.{WorkspaceContext}
use ocspcrltesting.Ssrf.Url.{ParsedUrl, Resolver, validate_urls}
use ocspcrltesting.Catalog.{validate_selection}
use ocspcrltesting.Catalog.Stored.{load_global_selection, accepted}
use ocspcrltesting.Certs.{Bytes, Parsers, as_bad_request}
use ocspcrltesting.Jobs.{RunStore, start_run}
use ocspcrltesting.Runs.Storage.{
  Uploads, StoredFile, RunDirs, with_dir, has_slot, store_files, copy_files, uploads_of,
}
use ocspcrltesting.Runs.{get_run_or_404, workspace_policy, active_runs_of}
use ocspcrltesting.Prelude.{
  ℕ, min, String, not, Option, none, some, List, [], ◌∷◌, ◌++◌, map, str_eq, leb, if◌then◌else◌,
  id_or_none, http_error, Result, ok, err, guard, ◌>>=◌, ◌>>◌,
}

-- What an action of the API leaves: the new run, the rows, and the directories.
pub record Created : Type 0 where
  pub run : Run
  pub store : RunStore
  pub dirs : RunDirs

-- except BlockedTargetError: raise HTTPException(403)
abbrev as_forbidden : Result (Unit {0}) → Result (Unit {0})
as_forbidden (ok done) = ok tt
as_forbidden (err e) = err (http_error 403)

unfoldable pub resolve_selection : Db → TestSelection → Result (Option Selection)
resolve_selection db selection =
    if str_eq selection.mode "custom"
    then (do accepted (validate_selection selection.tests); ok (some selection.tests))
    else if str_eq selection.mode "global"
    then ok (load_global_selection db)
    else ok none

abbrev pub ws_limit : Settings → WorkspaceContext → ℕ
ws_limit settings ctx = min ctx.workspace.max_concurrent_runs settings.max_concurrent_runs

abbrev pub new_run :
    String
    → RunConfig
    → List (String × String)
    → Option Selection
    → Option String
    → WorkspaceContext
    → Run
new_run run_id config files resolved rerun_of ctx = record {
  id = run_id;
  workspace_id = some ctx.workspace.id;
  created_by_user_id = id_or_none ctx.principal.user.id;
  name = config.name;
  ocsp_url = config.ocsp_url;
  config = record {
    config = config;
    files = files;
    resolved_test_selection = resolved;
    rerun_of = rerun_of;
  };
  status = "queued";
  started_at = none;
  finished_at = none;
  error = none;
  current_activity = none;
  totals = [];
  latency = none;
  last_seq = 0;
}

abbrev pub display_names : List StoredFile → List (String × String)
display_names files = map (λ f. (f.slot, f.display)) files

-- The row is committed, the manifest written, and the worker started.
unfoldable pub launch :
    Settings
    → String
    → ℕ
    → RunConfig
    → List StoredFile
    → Option Selection
    → Option String
    → WorkspaceContext
    → RunStore
    → RunDirs
    → Created
launch settings run_id now config files resolved rerun_of ctx s dirs =
    let run = new_run run_id config (display_names files) resolved rerun_of ctx in
    record {
      run = run;
      store = start_run run_id now (record s { runs = s.runs ++ run ∷ [] });
      dirs =
          with_dir run_id
            (record {
              uploads = files;
              manifest = some (record {
                run_id = run_id;
                config = config;
                resolved_test_selection = resolved;
                files = map (λ f. f.slot) files;
                policy = workspace_policy settings ctx;
              });
            })
            dirs;
    }

abbrev pub targets : (String → ParsedUrl) → RunConfig → List ParsedUrl
targets parse config = parse config.ocsp_url ∷ map parse config.crl_urls

module _ (resolve : Resolver) (parse : String → ParsedUrl) where
  -- The checks that a new run and a repeated one pass; the answer is the resolved selection.
  unfoldable pub admitted :
      Settings → RunConfig → WorkspaceContext → Db → RunStore → Result (Option Selection)
  admitted settings config ctx db s = do
    as_forbidden (validate_urls resolve (targets parse config) (workspace_policy settings ctx))
    resolved ← resolve_selection db config.test_selection
    guard (not (leb (ws_limit settings ctx) (active_runs_of ctx.workspace.id s))) (http_error 429)
    ok resolved

-- `model_validate_json` of the form's text comes as a configuration that may be invalid.
unfoldable pub create_run :
    Settings
    → Parsers
    → (String → Bytes)
    → Resolver
    → (String → ParsedUrl)
    → RunConfig
    → Uploads
    → String
    → ℕ
    → WorkspaceContext
    → Db
    → RunStore
    → RunDirs
    → Result Created
create_run settings x509 encode resolve parse received uploads run_id now ctx db s dirs = do
  config ← as_bad_request (model_validate received)
  resolved ← admitted resolve parse settings config ctx db s
  files ← store_files settings x509 encode config uploads ctx db
  ok (launch settings run_id now config files resolved none ctx s dirs)

-- except ValidationError: raise HTTPException(422)
abbrev pub as_unprocessable : Result RunConfig → Result RunConfig
as_unprocessable (ok config) = ok config
as_unprocessable (err e) = err (http_error 422)

abbrev pub without_saved : RunConfig → RunConfig
without_saved config = record config { saved_certs = [] }

unfoldable pub rerun_run :
    Settings
    → Resolver
    → (String → ParsedUrl)
    → String
    → String
    → ℕ
    → WorkspaceContext
    → Db
    → RunStore
    → RunDirs
    → Result Created
rerun_run settings resolve parse run_id new_run_id now ctx db s dirs = do
  prior ← get_run_or_404 s run_id ctx
  config ← as_unprocessable (model_validate (without_saved prior.config.config))
  guard (has_slot "issuer_cert" (uploads_of dirs run_id)) (http_error 409)
  resolved ← admitted resolve parse settings config ctx db s
  let files = copy_files (uploads_of dirs run_id) prior.config.files
  guard (has_slot "issuer_cert" files) (http_error 409)
  ok (launch settings new_run_id now config files resolved (some run_id) ctx s dirs)

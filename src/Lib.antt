-- ===== src/Lib.antt =====
-- Verification of the web service's core: who may do what, where it may connect, what a run may ask
-- for, what its worker does, and what becomes of it. Paths are from the repository's root.
--
-- A request is authenticated and authorized (backend/app/authz.py), reads and writes the tables
-- (backend/app/orm.py), and leaves an audit row (backend/app/audit.py). Workspaces and their members
-- (backend/app/api/workspaces.py), users (backend/app/api/admin.py) and API tokens
-- (backend/app/api/tokens.py) decide what later requests may do; sign-in (backend/app/api/auth.py)
-- adjusts memberships (backend/app/provisioning.py). A workspace keeps certificates and profiles
-- (backend/app/api/ca_certs.py and profiles.py) for its runs. A run's configuration
-- (backend/app/schemas.py) names tests of a catalog (backend/app/test_catalog.py) and targets that
-- pass the network policy (backend/app/ssrf.py); the runs API (backend/app/api/runs.py) creates it,
-- shows, cancels and deletes it. Its worker (backend/app/worker) calls the engine
-- (ocsp_tester/runner.py) and is supervised by backend/app/jobs.py, which keeps its events and results.
--
-- - Prelude: names that all modules share, and the lemmas on tests, lists, tables and errors.
-- - Schema: the rows of orm.py and the database as a record of tables. Settings: settings.py.
--   Audit: `record` as `record_event`. Schemas: a run's configuration, with its checks as `model_validate`.
-- - Authz: `Role`, `Principal`, `get_membership`. Access has `require_workspace`,
--   `authorize_workspace_role` and `active_workspace`; Access/Grants what they grant. Principals has
--   `current_principal` and `principal_from_websocket`; Principals/Bearer, Accepted and Websocket what
--   they accept.
-- - Provisioning: personal and default workspaces; Groups has `sync_oidc_group_memberships`, with
--   Groups/Rows and Groups/Sync for one workspace and for all.
-- - Provisioning/Accounts: sign-in through OIDC and the set-up at boot; Accounts/Startup what they do.
-- - Login: the local login of backend/app/api/auth.py and its rate limiter; Limits what they promise.
--   Login/Oidc: the redirect to the provider and the callback; States what becomes of a state.
-- - Tokens: the endpoints of tokens.py, and their Lifecycle. Admin: the endpoints that change users,
--   and what they leave of the Accounts.
-- - Workspaces: the endpoints of workspaces.py; Admins and Policy have their theorems, Counting the
--   lemmas on counted rows.
-- - Certs: the parsers of certs.py and the limit on an upload; Accepted what they accept.
-- - Library: Profiles and Certificates have the endpoints of profiles.py and ca_certs.py; Names, Changes,
--   Import and Repeat their theorems, Rows and Keys the lemmas on tables.
-- - Ssrf: Address has the predicates of Python's ipaddress module, Policy the judgement of an
--   address with its Ranges and Metadata, Url the validation of URLs and the guarded resolver, Fetch `guarded_fetch`.
-- - Catalog: the tests and `validate_selection`; Known, Selected and Stored have the theorems.
-- - Engine: Selection has the engine's filter, Runner the selection of tests and `run_all`; Complete what
--   a run of all reports.
-- - Jobs: rows, events and results of a run (`JobManager`); Supervisor has `_supervise` and
--   `_finalize`. Events, Results, Supervisor/Endings and Supervisor/Verdict have the theorems.
-- - Runs: visibility, the lists, cancellation and deletion of runs, and `authorize_run_view`. Storage
--   has the files of a run, Creation `create_run` and `rerun_run`; Launched, Bounds, Checks, Checked
--   and Limits what they check first. Saved: a run as a profile, with Kept. Retention: the sweep of storage.py.
-- - Worker: Json the details of results, Analysis the warnings they get, Executor `RunExecutor.run` with its
--   events, Netguard the guard around requests. Warnings, Labels, Latency, Reports, Emitted and Outcome have
--   the theorems.
-- - Stream: the loop of backend/app/api/stream.py and `get_logs`; Order and Delivery what a client receives.
-- - Samples and the modules called Examples: concrete inputs.
--
-- Handlers are functions of the database that return an error or the new database; a handler that
-- commits before it may raise returns both. Times and ids that the database or the clock gives are
-- arguments, as are random texts. Functions that are not the repository's are parameters: the hash of
-- a token or a file, the check of a session cookie, the parsers of certificates, the exchange with the
-- OIDC provider, `str.lower`, the resolver, the HTTP client and `urljoin`. The test suites that the
-- engine calls are parameters too, so that what is stated of the worker holds for all their results.
-- What happens to a worker is a list of happenings in their order, so every interleaving of its lines
-- with a user's request to cancel is covered. `guarded_fetch` counts its own rounds and needs no other
-- fuel; all else is structural recursion.
--
-- A handler and a change of a run's rows are one step: requests at the same time, and appends of a
-- worker's standard error between the reading and the writing of a number, are left out, and so are
-- calls of the engine that hang, exit or are killed with their process.
--
-- Not modelled: the sockets of the streams, the test suites, exports and serializers, the orders
-- and pages of lists; processes, signals, logging and file handling; the user interface and the desktop
-- monitor.

pub mod Prelude
pub mod Samples
pub mod Schema
pub mod Schemas
pub mod Settings
pub mod Audit
pub mod Provisioning
pub mod Authz
pub mod Tokens
pub mod Ssrf
pub mod Stream
pub mod Workspaces
pub mod Catalog
pub mod Certs
pub mod Library
pub mod Engine
pub mod Jobs
pub mod Login
pub mod Admin
pub mod Runs
pub mod Worker

-- ===== src/Runs/Creation/Examples.antt =====
-- Bob starts a run in the team's workspace, at concrete values.
use ocspcrltesting.Schemas.{RunConfig}
use ocspcrltesting.Authz.{member, WorkspaceContext}
use ocspcrltesting.Ssrf.Address.{v4}
use ocspcrltesting.Ssrf.Url.{ParsedUrl, Resolver}
use ocspcrltesting.Catalog.Known.{IsSound}
use ocspcrltesting.Certs.{Bytes, Certificate, Parsers}
use ocspcrltesting.Jobs.{get_run}
use ocspcrltesting.Runs.Creation.Bounds.{unfinished}
use ocspcrltesting.Runs.Storage.{Uploads, RunDirs}
use ocspcrltesting.Runs.Creation.{Created, new_run, create_run}
use ocspcrltesting.Runs.Creation.Checks.{Starts, created}
use ocspcrltesting.Runs.Creation.Checked.{Checked}
use ocspcrltesting.Runs.Creation.Limits.{Starts-limited, Starts-IsSound}
use ocspcrltesting.Schema.{Profile}
use ocspcrltesting.Runs.Saved.{RunProfileIn, save_run_as_profile}
use ocspcrltesting.Runs.Saved.Kept.{IsSaved, save_run_as_profile-started}
use ocspcrltesting.Samples.{bob, team, db, store, config, settings, signed_in, value_or}
use ocspcrltesting.Prelude.{
  ℕ, ◌+◌, ◌≤◌, String, ◌≡◌, ◌≢◌, refl, none, some, false, [], ◌∷◌, Option, List, ◌++◌, ok,
}

abbrev as_bob : WorkspaceContext
as_bob = record { workspace = team; principal = signed_in bob; role = member }

abbrev to_public : Resolver
to_public host = some (some (v4 0x08080808) ∷ [])

abbrev parse_url : String → ParsedUrl
parse_url text = record {
  scheme = "http";
  hostname = some "ocsp.example";
  port = none;
  netloc = "ocsp.example";
}

abbrev issuer : Certificate
issuer = record {
  der = 48 ∷ [];
  pem = 45 ∷ [];
  pem_text = "-";
  common_names = "Root CA" ∷ [];
  subject = "CN=Root CA";
  issuer = "CN=Root CA";
  serial_number = "0x1";
  not_valid_before = 1;
  not_valid_after = 900;
  basic_constraints_ca = none;
}

abbrev x509 : Parsers
x509 = record {
  load_pem = λ content. some issuer;
  load_der = λ content. none;
  load_pem_bundle = λ content. none;
  load_pkcs7 = λ content. none;
}

abbrev encode : String → Bytes
encode text = 45 ∷ []

abbrev uploads : Uploads
uploads = record {
  issuer_cert = some (record { file = 45 ∷ 46 ∷ []; filename = some "root.pem" });
  good_cert = none;
  revoked_cert = none;
  unknown_ca_cert = none;
  trust_anchor = none;
  client_cert = none;
  client_key = none;
}

abbrev selective : RunConfig
selective = record config {
  test_selection = record {
    mode = "custom";
    tests = ("status", "Unknown CA returns unknown" ∷ []) ∷ [];
  };
}

abbrev no_dirs : RunDirs
no_dirs run_id = none

abbrev nothing : Created
nothing = record { run = new_run "r2" config [] none none as_bob; store = store; dirs = no_dirs }

abbrev made : Created
made =
    value_or
      (create_run settings x509 encode to_public parse_url selective uploads "r2" 70 as_bob db store
        no_dirs)
      nothing

start : Starts settings x509 encode to_public parse_url "r2" 70 as_bob db store no_dirs made
unfolding ocspcrltesting.Runs.Creation.resolve_selection ocspcrltesting.Runs.Creation.launch
    ocspcrltesting.Runs.Creation.admitted ocspcrltesting.Runs.Creation.create_run
    ocspcrltesting.Runs.Storage.store_cert ocspcrltesting.Runs.Storage.store_key
    ocspcrltesting.Runs.Storage.store_saved_certs ocspcrltesting.Runs.Storage.store_files
    ocspcrltesting.Certs.is_blank ocspcrltesting.Certs.begins_with ocspcrltesting.Certs.contains
    ocspcrltesting.Certs.load_certificate ocspcrltesting.Certs.to_pem
    ocspcrltesting.Certs.validate_private_key_pem ocspcrltesting.Certs.read_limited_upload
    ocspcrltesting.Catalog.validate_selection ocspcrltesting.Catalog.Stored.load_global_selection
    ocspcrltesting.Schemas.text_length ocspcrltesting.Schemas.starts_with_lower
    ocspcrltesting.Schemas.model_validate ocspcrltesting.Ssrf.Url.usable
    ocspcrltesting.Ssrf.Url.resolve_host ocspcrltesting.Ssrf.Url.allowed_addresses
    ocspcrltesting.Ssrf.Url.host_addresses ocspcrltesting.Ssrf.Url.resolve_and_validate
    ocspcrltesting.Ssrf.Url.validate_urls ocspcrltesting.Ssrf.Policy.from_settings
    ocspcrltesting.Ssrf.Policy.normalize ocspcrltesting.Ssrf.Policy.is_metadata
    ocspcrltesting.Ssrf.Policy.classify ocspcrltesting.Ssrf.Policy.classify_ip
    ocspcrltesting.Ssrf.Policy.address_block_reason ocspcrltesting.Ssrf.Address.ipv4_mapped
    ocspcrltesting.Ssrf.Address.is_loopback ocspcrltesting.Ssrf.Address.is_link_local
    ocspcrltesting.Ssrf.Address.is_private ocspcrltesting.Ssrf.Address.is_unspecified
    ocspcrltesting.Ssrf.Address.is_multicast ocspcrltesting.Ssrf.Address.is_reserved
    ocspcrltesting.Runs.workspace_policy ocspcrltesting.Runs.active_runs_of
    ocspcrltesting.Jobs.is_terminal ocspcrltesting.Jobs.get_run ocspcrltesting.Jobs.update_run
    ocspcrltesting.Jobs.append_event ocspcrltesting.Jobs.start_run
    ocspcrltesting.Prelude.Text.ends_with ocspcrltesting.Prelude.Text.lower_code
    ocspcrltesting.Prelude.Text.take_text
start = created selective uploads refl

Starts-limited_example :
    (unfinished 7 made.store ≡ unfinished 7 store + 1)
    × (unfinished 7 made.store ≤ 2)
    × (unfinished 7 made.store ≤ 4)
    × ((other : String) → other ≢ "r2" → get_run other made.store ≡ get_run other store)
unfolding get_run
Starts-limited_example =
    Starts-limited settings x509 encode to_public parse_url "r2" 70 as_bob db store no_dirs made
      start refl

Starts-IsSound_example : IsSound made.run.config.resolved_test_selection
unfolding ocspcrltesting.Catalog.Stored.load_global_selection
Starts-IsSound_example =
    Starts-IsSound settings x509 encode to_public parse_url "r2" 70 as_bob db store no_dirs made
      start tt

abbrev saved_as : RunProfileIn
saved_as = record { name = "weekly"; description = none }

save_run_as_profile-started_example :
    (q : Profile) × (save_run_as_profile "r2" saved_as 22 80 as_bob made.store db
      ≡ ok (q, record db { profiles = db.profiles ++ q ∷ [] }))
    × IsSaved saved_as 22 as_bob made q
unfolding get_run
save_run_as_profile-started_example =
    save_run_as_profile-started settings x509 encode to_public parse_url "r2" 70 as_bob db store
      no_dirs made saved_as 22 80 db start refl refl

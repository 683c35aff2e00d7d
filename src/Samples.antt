-- ===== src/Samples.antt =====
-- Test data that the examples share: a small organization with one shared workspace.
use ocspcrltesting.Schemas.{Categories, RunConfig}
use ocspcrltesting.Schema.{
  StoredConfig, CaCertificate, Profile, User, Workspace, WorkspaceMember, ApiToken, Run, Db,
}
use ocspcrltesting.Settings.{Settings}
use ocspcrltesting.Authz.{Principal, member}
use ocspcrltesting.Jobs.{RunStore}
use ocspcrltesting.Prelude.{ℕ, String, Bool, true, false, none, some, [], ◌∷◌, Result, ok, err}

abbrev pub user : ℕ → String → Bool → User
user id name is_admin = record {
  id = id;
  provider = "local";
  subject = name;
  email = some name;
  display_name = none;
  password_hash = none;
  is_global_admin = is_admin;
  is_active = true;
  last_login_at = none;
}

abbrev pub alice : User
alice = user 1 "alice" false

abbrev pub bob : User
bob = user 2 "bob" false

abbrev pub carol : User
carol = user 3 "carol" false

abbrev pub root : User
root = user 9 "root" true

abbrev pub team : Workspace
team = record {
  id = 7;
  name = "team";
  kind = "shared";
  owner_user_id = none;
  run_visibility = "own";
  allow_private_targets = false;
  max_concurrent_runs = 2;
  oidc_group_admin = some "admins";
  oidc_group = some "staff";
  oidc_group_viewer = none;
}

abbrev pub has_role : ℕ → String → String → WorkspaceMember
has_role user_id role source = record {
  workspace_id = 7;
  user_id = user_id;
  role = role;
  source = some source;
}

-- A live token of alice's, scoped to the team's workspace.
abbrev pub token : ApiToken
token = record {
  id = 40;
  user_id = 1;
  workspace_id = some 7;
  name = "ci";
  token_hash = "ocspt_secret";
  role_ceiling = "member";
  last_used_at = none;
  revoked_at = none;
}

-- All tests of two categories.
abbrev pub categories : Categories
categories = record {
  protocol = true;
  status = true;
  crl = false;
  path_validation = false;
  ikev2 = false;
  federal = false;
  performance = false;
  security = false;
}

abbrev pub config : RunConfig
config = record {
  name = some "nightly";
  ocsp_url = "http://ocsp.example";
  crl_urls = [];
  request_method = "auto";
  nonce_enabled = true;
  nonce_length = 32;
  latency_samples = 5;
  enable_load_test = false;
  load_concurrency = 5;
  load_requests = 50;
  timeout_seconds = 10;
  run_timeout_seconds = 900;
  max_age_hours = 24;
  trust_anchor_type = "root";
  require_explicit_policy = false;
  inhibit_policy_mapping = false;
  categories = categories;
  test_selection = record { mode = "all"; tests = [] };
  saved_certs = [];
  profile_id = none;
}

abbrev pub stored_config : StoredConfig
stored_config = record {
  config = config;
  files = ("issuer_cert", "issuer.pem") ∷ [];
  resolved_test_selection = none;
  rerun_of = none;
}

abbrev pub root_ca : CaCertificate
root_ca = record {
  id = 30;
  workspace_id = some 7;
  created_by_user_id = some 1;
  name = "Root CA";
  pem = "PEM";
  subject = "CN=Root CA";
  issuer = "CN=Root CA";
  serial_number = "0x1";
  fingerprint_sha256 = "ab12";
  not_before = 0;
  not_after = 1000;
  is_ca = true;
  source = "upload";
  source_url = none;
}

abbrev pub profile : Profile
profile = record {
  id = 20;
  workspace_id = some 7;
  created_by_user_id = some 1;
  name = "nightly";
  description = none;
  config = config;
  updated_at = 4;
}

abbrev pub run : Run
run = record {
  id = "r1";
  workspace_id = some 7;
  created_by_user_id = some 2;
  name = none;
  ocsp_url = "http://ocsp.example";
  config = stored_config;
  status = "running";
  started_at = some 5;
  finished_at = none;
  error = none;
  current_activity = none;
  totals = [];
  latency = none;
  last_seq = 0;
}

abbrev pub store : RunStore
store = record { runs = run ∷ []; events = []; results = [] }

-- Alice is an admin of the team's workspace, bob a member.
abbrev pub db : Db
db = record {
  users = alice ∷ bob ∷ carol ∷ root ∷ [];
  workspaces = team ∷ [];
  members = has_role 1 "admin" "manual" ∷ has_role 2 "member" "oidc" ∷ [];
  tokens = token ∷ [];
  audit = [];
  runs = run ∷ [];
  certificates = root_ca ∷ [];
  profiles = profile ∷ [];
  global_selection = none;
}

abbrev pub signed_in : User → Principal
signed_in u = record { user = u; token_workspace_id = none; token_role_ceiling = none }

-- Alice by her token.
abbrev pub by_token : Principal
by_token = record { user = alice; token_workspace_id = some 7; token_role_ceiling = some member }

abbrev pub settings : Settings
settings = record {
  session_secret = "secret";
  auth_password = "";
  bootstrap_admin_username = "admin";
  bootstrap_admin_password = "";
  local_login_enabled = true;
  oidc_issuer = "";
  oidc_client_id = "";
  oidc_client_secret = "";
  max_concurrent_runs = 4;
  default_run_timeout_seconds = 900;
  max_run_timeout_seconds = 3600;
  allow_private_targets = false;
  allow_redirects = true;
  max_response_bytes = 1000;
  max_request_timeout_seconds = 30;
  extra_blocked_host_list = [];
  max_upload_bytes = 100;
  retention_days = 30;
}

abbrev pub value_or {ℓ} : {A : Type ℓ} → Result A → A → A
value_or (ok a) d = a
value_or (err e) d = d

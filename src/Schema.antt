-- ===== src/Schema.antt =====
-- backend/app/orm.py: the rows of the tables, and the database as the state that a handler reads
-- and commits. Times are seconds; a row's columns that no modelled code reads are left out.
use ocspcrltesting.Schemas.{RunConfig, Selection}
use ocspcrltesting.Prelude.{ℕ, String, Bool, Option, List, ◌==◌, false}

pub record User : Type 0 where
  pub id : ℕ
  pub provider : String
  pub subject : String
  pub email : Option String
  pub display_name : Option String
  pub password_hash : Option String
  pub is_global_admin : Bool
  pub is_active : Bool
  pub last_login_at : Option ℕ

pub record Workspace : Type 0 where
  pub id : ℕ
  pub name : String
  pub kind : String
  pub owner_user_id : Option ℕ
  pub run_visibility : String
  pub allow_private_targets : Bool
  pub max_concurrent_runs : ℕ
  pub oidc_group_admin : Option String
  pub oidc_group : Option String
  pub oidc_group_viewer : Option String

-- `source` may be NULL in rows that predate the column.
pub record WorkspaceMember : Type 0 where
  pub workspace_id : ℕ
  pub user_id : ℕ
  pub role : String
  pub source : Option String

pub record ApiToken : Type 0 where
  pub id : ℕ
  pub user_id : ℕ
  pub workspace_id : Option ℕ
  pub name : String
  pub token_hash : String
  pub role_ceiling : String
  pub last_used_at : Option ℕ
  pub revoked_at : Option ℕ

-- What an event was about: a text, or the decimal text of an id.
pub data Target : Type 0 where
  text_target : String → Target
  id_target : ℕ → Target

pub record AuditLog : Type 0 where
  pub event : String
  pub user_id : Option ℕ
  pub actor : Option String
  pub workspace_id : Option ℕ
  pub target : Option Target

-- config_json of a run: the configuration, the displayed names of its files by their slot, the
-- selection of tests that was resolved for it, and the run that it repeats.
pub record StoredConfig : Type 0 where
  pub config : RunConfig
  pub files : List (String × String)
  pub resolved_test_selection : Option Selection
  pub rerun_of : Option String

pub record Run : Type 0 where
  pub id : String
  pub workspace_id : Option ℕ
  pub created_by_user_id : Option ℕ
  pub name : Option String
  pub ocsp_url : String
  pub config : StoredConfig
  pub status : String
  pub started_at : Option ℕ
  pub finished_at : Option ℕ
  pub error : Option String
  pub current_activity : Option String
  pub totals : List (String × ℕ)
  pub latency : Option String
  pub last_seq : ℕ

-- What an event carries: a log line with its level, a snapshot of the run's row, the activity of a
-- progress event, or a result's id and status.
pub data Payload : Type 0 where
  log_line : String → String → Payload
  snapshot : Run → Payload
  activity : Option String → Payload
  result_of : String → String → Payload

pub record RunEvent : Type 0 where
  pub run_id : String
  pub seq : ℕ
  pub kind : String
  pub payload : Payload

pub record ResultRow : Type 0 where
  pub id : String
  pub run_id : String
  pub category : String
  pub name : String
  pub status : String
  pub message : String

-- The setting "global_test_selection": its tests, and when it was changed.
pub record AppSetting : Type 0 where
  pub tests : Option Selection
  pub updated_at : ℕ

pub record CaCertificate : Type 0 where
  pub id : ℕ
  pub workspace_id : Option ℕ
  pub created_by_user_id : Option ℕ
  pub name : String
  pub pem : String
  pub subject : String
  pub issuer : String
  pub serial_number : String
  pub fingerprint_sha256 : String
  pub not_before : ℕ
  pub not_after : ℕ
  pub is_ca : Bool
  pub source : String
  pub source_url : Option String

pub record Profile : Type 0 where
  pub id : ℕ
  pub workspace_id : Option ℕ
  pub created_by_user_id : Option ℕ
  pub name : String
  pub description : Option String
  pub config : RunConfig
  pub updated_at : ℕ

-- The tables that sign-in, workspaces and authorization use.
pub record Db : Type 0 where
  pub users : List User
  pub workspaces : List Workspace
  pub members : List WorkspaceMember
  pub tokens : List ApiToken
  pub audit : List AuditLog
  pub runs : List Run
  pub certificates : List CaCertificate
  pub profiles : List Profile
  pub global_selection : Option AppSetting

-- A nullable column against a value: NULL is equal to nothing.
abbrev pub column_eq : Option ℕ → ℕ → Bool
column_eq Option.none n = false
column_eq (Option.some m) n = m == n

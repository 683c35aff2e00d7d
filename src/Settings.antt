-- ===== src/Settings.antt =====
-- backend/app/settings.py: the settings that the modelled code reads, and what is derived from them.
use ocspcrltesting.Prelude.{ℕ, String, Bool, not, ◌&&◌, List, is_empty}

pub record Settings : Type 0 where
  pub session_secret : String
  pub auth_password : String
  pub bootstrap_admin_username : String
  pub bootstrap_admin_password : String
  pub local_login_enabled : Bool
  pub oidc_issuer : String
  pub oidc_client_id : String
  pub oidc_client_secret : String
  pub max_concurrent_runs : ℕ
  pub default_run_timeout_seconds : ℕ
  pub max_run_timeout_seconds : ℕ
  pub allow_private_targets : Bool
  pub allow_redirects : Bool
  pub max_response_bytes : ℕ
  pub max_request_timeout_seconds : ℕ
  pub extra_blocked_host_list : List String
  pub max_upload_bytes : ℕ
  pub retention_days : ℕ

-- bool(text)
abbrev pub is_set : String → Bool
is_set s = not (is_empty s)

unfoldable pub oidc_enabled : Settings → Bool
oidc_enabled s = is_set s.oidc_issuer && is_set s.oidc_client_id && is_set s.oidc_client_secret

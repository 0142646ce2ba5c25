-- ===== src/Config.antt =====
-- internal/config/config.go: the configuration as it is read from YAML, with a pointer as an option. Times
-- are in nanoseconds.
pub mod Defaults
pub mod Projects
pub mod Bounds
pub mod Names
use driftd.Prelude.{
  ℕ, ℤ, String, Bool, true, Option, none, some, List, [], ◌∷◌, ◌==◌, if◌then◌else◌, get_or,
}

pub record RedisConfig : Type 0 where
  pub addr : String
  pub password : String
  pub db : ℤ

pub record WorkerConfig : Type 0 where
  pub concurrency : ℤ
  pub lock_ttl : ℤ
  pub retry_once : Bool
  pub scan_max_age : ℤ
  pub clone_depth : ℤ
  pub renew_every : ℤ
  pub stack_timeout : ℤ
  pub block_external_data_source : Bool

pub record WorkspaceConfig : Type 0 where
  pub retention : ℤ
  pub cleanup_after_plan : Option Bool

pub record WebhookConfig : Type 0 where
  pub enabled : Bool
  pub github_secret : String
  pub token : String
  pub token_header : String
  pub max_files : ℤ

pub record UiAuthConfig : Type 0 where
  pub username : String
  pub password : String

pub record ApiAuthConfig : Type 0 where
  pub username : String
  pub password : String
  pub token : String
  pub token_header : String
  pub write_token : String
  pub write_token_header : String

pub record ExternalAuthConfig : Type 0 where
  pub user_header : String
  pub email_header : String
  pub groups_header : String
  pub groups_delimiter : String
  pub default_role : String
  pub viewers : List String
  pub operators : List String
  pub admins : List String

pub record AuthConfig : Type 0 where
  pub mode : String
  pub external : ExternalAuthConfig

pub record ApiConfig : Type 0 where
  pub rate_limit_per_minute : ℤ
  pub trust_proxy : Bool

pub record MonorepoProjectConfig : Type 0 where
  pub name : String
  pub path : String
  pub schedule : String
  -- `none` where the list is nil
  pub ignore_paths : Option (List String)

pub record GitHubAppConfig : Type 0 where
  pub app_id : ℕ
  pub installation_id : ℕ
  pub private_key : String
  pub private_key_path : String
  pub private_key_env : String
  pub api_base_url : String

pub record GitAuthConfig : Type 0 where
  pub kind : String
  pub ssh_key_path : String
  pub ssh_key_env : String
  pub ssh_key_passphrase_env : String
  pub ssh_known_hosts_path : String
  pub ssh_insecure_ignore_host_key : Bool
  pub https_username : String
  pub https_token : String
  pub https_token_env : String
  pub github_app : Option GitHubAppConfig

pub record ProjectConfig : Type 0 where
  pub name : String
  pub url : String
  pub branch : String
  pub ignore_paths : Option (List String)
  pub schedule : String
  pub cancel_inflight_on_new_trigger : Option Bool
  pub git : Option GitAuthConfig
  pub projects : List MonorepoProjectConfig
  pub root_path : String
  pub clone_url : String

pub record Config : Type 0 where
  pub data_dir : String
  pub listen_addr : String
  pub insecure_dev_mode : Bool
  pub redis : RedisConfig
  pub worker : WorkerConfig
  pub workspace : WorkspaceConfig
  pub projects : List ProjectConfig
  pub webhook : WebhookConfig
  pub ui_auth : UiAuthConfig
  pub api_auth : ApiAuthConfig
  pub auth : AuthConfig
  pub api : ApiConfig

unfoldable pub cancel_inflight_enabled : ProjectConfig → Bool
cancel_inflight_enabled p = get_or p.cancel_inflight_on_new_trigger true

unfoldable pub effective_clone_url : ProjectConfig → String
effective_clone_url p = if p.clone_url == "" then p.url else p.clone_url

unfoldable pub cleanup_after_plan_enabled : WorkspaceConfig → Bool
cleanup_after_plan_enabled w = get_or w.cleanup_after_plan true

unfoldable pub get_project : String → List ProjectConfig → Option ProjectConfig
get_project name [] = none
get_project name (p ∷ ps) =
    let rest = get_project name ps in if p.name == name then some p else rest

-- ===== src/Api/Settings.antt =====
-- internal/api/handlers_settings.go: the projects and the integrations that are managed while the program runs. A
-- handler takes what it reads of a request and answers an HTTP status; a store or a callback that is
-- nil is one that is not managed.
pub mod Requested
pub mod Repos
pub mod Integrations
pub mod Responses
pub mod Access
pub mod Serving
pub mod References
pub mod Schedules
use driftd.Prelude.{
  ℕ, String, Bool, Option, none, some, List, get_or, Result, ok, err, rejected, if◌then◌else◌,
}
use driftd.Config.{ProjectConfig}
use driftd.Secrets.Projects.{ProjectStore, Cipher}
use driftd.Secrets.Integrations.{IntegrationStore, IntegrationEntry}
use driftd.Secrets.Integrations as Stored
use driftd.Scheduler.{Scheduler}

pub record ProjectRequest : Type 0 where
  pub name : String
  pub url : String
  pub branch : Option String
  pub ignore_paths : Option (List String)
  pub schedule : Option String
  pub cancel_inflight : Option Bool
  pub auth_type : String
  pub integration_id : Option String
  pub github_app_id : ℕ
  pub github_installation_id : ℕ
  pub github_private_key : String
  pub ssh_private_key : String
  pub ssh_known_hosts : String
  pub https_username : String
  pub https_token : String

pub record IntegrationRequest : Type 0 where
  pub name : String
  pub kind : String
  pub github_app_id : ℕ
  pub github_installation_id : ℕ
  pub github_private_key_path : String
  pub github_private_key_env : String
  pub github_api_base_url : String
  pub ssh_key_path : String
  pub ssh_key_env : String
  pub ssh_key_passphrase_env : String
  pub ssh_known_hosts_path : String
  pub ssh_insecure_ignore_host_key : Bool
  pub https_username : String
  pub https_token_env : String

-- What the server was set up with.
pub record Setup : Type 0 where
  -- cfg.Projects
  pub configured : List ProjectConfig
  -- projectStore, intStore and the callbacks of the scheduler are not nil
  pub manages_projects : Bool
  pub manages_integrations : Bool
  pub follows : Bool
  pub cipher : Cipher
  -- the parser of cron
  pub parses : String → Bool
  -- time.Format of the two times of an entry
  pub format : ℕ → String

-- What the handlers change.
pub record Settings : Type 0 where
  pub projects : ProjectStore
  pub integrations : IntegrationStore
  pub scheduler : Scheduler

-- The readings that a handler makes: the number of the nonce, and the clock.
pub record Reading : Type 0 where
  pub nonce : ℕ
  pub now : ℕ

unfoldable pub get_integration : Setup → String → Settings → Result IntegrationEntry
get_integration u id st =
    if u.manages_integrations then Stored.get id st.integrations else err rejected

-- ===== src/Api/Settings/Responses.antt =====
-- internal/api/handlers_settings.go: what the handlers that only read answer.
use driftd.Prelude.{
  ℕ, String, Bool, true, false, Option, none, some, List, [], ◌∷◌, ◌++◌, ◌==◌, ◌||◌, not,
  if◌then◌else◌, get_or, Result, ok, err,
}
use driftd.Config.{
  ProjectConfig, GitAuthConfig, GitHubAppConfig, get_project, cancel_inflight_enabled,
}
use driftd.Secrets.Projects.{ProjectEntry, ProjectGitHubApp}
use driftd.Secrets.Projects as Projects
use driftd.Secrets.Integrations.{
  IntegrationEntry, IntegrationGitHubApp, IntegrationSsh, IntegrationHttps,
}
use driftd.Secrets.Integrations as Stored
use driftd.Api.Settings.{Setup, Settings}
use driftd.Api.Settings.Integrations.{missing_status}

pub record ProjectResponse : Type 0 where
  pub name : String
  pub url : String
  pub branch : String
  pub ignore_paths : List String
  pub schedule : String
  pub cancel_inflight : Bool
  pub auth_type : String
  pub github_app_id : ℕ
  pub github_installation_id : ℕ
  pub integration_id : String
  pub integration_name : String
  pub integration_type : String
  pub source : String
  pub created_at : String
  pub updated_at : String

-- The answer without what the git section says.
abbrev config_fields : ProjectConfig → ProjectResponse
config_fields p = record {
  name = p.name;
  url = p.url;
  branch = p.branch;
  ignore_paths = get_or p.ignore_paths [];
  schedule = p.schedule;
  cancel_inflight = cancel_inflight_enabled p;
  auth_type = "";
  github_app_id = 0;
  github_installation_id = 0;
  integration_id = "";
  integration_name = "";
  integration_type = "";
  source = "config";
  created_at = "";
  updated_at = "";
}

abbrev with_config_app : Option GitHubAppConfig → ProjectResponse → ProjectResponse
with_config_app none r = r
with_config_app (some a) r = record r {
  github_app_id = a.app_id;
  github_installation_id = a.installation_id;
}

abbrev with_git : Option GitAuthConfig → ProjectResponse → ProjectResponse
with_git none r = r
with_git (some g) r =
    with_config_app g.github_app (record r { auth_type = g.kind; integration_type = g.kind })

unfoldable pub config_response : ProjectConfig → ProjectResponse
config_response p = with_git p.git (config_fields p)

abbrev entry_fields : Setup → ProjectEntry → ProjectResponse
entry_fields u e = record {
  name = e.name;
  url = e.url;
  branch = e.branch;
  ignore_paths = e.ignore_paths;
  schedule = e.schedule;
  cancel_inflight = e.cancel_inflight;
  auth_type = e.git.kind;
  github_app_id = 0;
  github_installation_id = 0;
  integration_id = e.integration_id;
  integration_name = "";
  integration_type = "";
  source = "dynamic";
  created_at = u.format e.created_at;
  updated_at = u.format e.updated_at;
}

abbrev with_entry_app : Option ProjectGitHubApp → ProjectResponse → ProjectResponse
with_entry_app none r = r
with_entry_app (some a) r = record r {
  github_app_id = a.app_id;
  github_installation_id = a.installation_id;
}

abbrev named_and_typed : Result IntegrationEntry → Option (String × String)
named_and_typed (err x) = none
named_and_typed (ok i) = some (i.name, i.kind)

unfoldable pub lookup_integration_meta : Setup → Settings → String → Option (String × String)
lookup_integration_meta u st id =
    if not u.manages_integrations || id == ""
    then none
    else named_and_typed (Stored.get id st.integrations)

abbrev with_meta : Option (String × String) → ProjectResponse → ProjectResponse
with_meta none r = r
with_meta (some (name, kind)) r = record r { integration_name = name; integration_type = kind }

abbrev with_integration : Setup → Settings → ProjectEntry → ProjectResponse → ProjectResponse
with_integration u st e r =
    if not (e.integration_id == "")
    then with_meta (lookup_integration_meta u st e.integration_id) r
    else if not (e.git.kind == "")
    then record r { integration_type = e.git.kind }
    else r

unfoldable pub entry_response : Setup → Settings → ProjectEntry → ProjectResponse
entry_response u st e = with_integration u st e (with_entry_app e.git.github_app (entry_fields u e))

abbrev configured_responses : List ProjectConfig → List ProjectResponse
configured_responses [] = []
configured_responses (p ∷ ps) = config_response p ∷ configured_responses ps

abbrev is_configured : Setup → String → Bool
is_configured u name = elim (get_project name u.configured) [ none ↦ false | some p ↦ true ]

-- A project with the name of a configured one is left out.
abbrev stored_responses : Setup → Settings → List ProjectEntry → List ProjectResponse
stored_responses u st [] = []
stored_responses u st (e ∷ es) =
    let rest = stored_responses u st es in
    if is_configured u e.name then rest else entry_response u st e ∷ rest

unfoldable pub handle_list_settings_repos : Setup → Settings → List ProjectResponse
handle_list_settings_repos u st =
    configured_responses u.configured
    ++ (if u.manages_projects then stored_responses u st (Projects.list st.projects) else [])

abbrev stored_answer : Setup → Settings → Result ProjectEntry → ℕ × Option ProjectResponse
stored_answer u st (err x) = (404, none)
stored_answer u st (ok e) = (200, some (entry_response u st e))

abbrev configured_or : Setup → Settings → String → Option ProjectConfig → ℕ × Option ProjectResponse
configured_or u st name (some p) = (200, some (config_response p))
configured_or u st name none =
    if u.manages_projects then stored_answer u st (Projects.get name st.projects) else (404, none)

unfoldable pub handle_get_settings_repo : Setup → String → Settings → ℕ × Option ProjectResponse
handle_get_settings_repo u name st = configured_or u st name (get_project name u.configured)

pub record IntegrationResponse : Type 0 where
  pub id : String
  pub name : String
  pub kind : String
  pub github_app_id : ℕ
  pub github_installation_id : ℕ
  pub github_private_key_path : String
  pub github_private_key_env : String
  pub github_api_base_url : String
  pub ssh_key_path : String
  pub ssh_key_env : String
  pub ssh_key_passphrase_env : String
  pub ssh_known_hosts_path : String
  pub ssh_insecure_ignore_host_key : Bool
  pub https_username : String
  pub https_token_env : String
  pub source : String
  pub created_at : String
  pub updated_at : String

abbrev no_app : IntegrationGitHubApp
no_app = record {
  app_id = 0;
  installation_id = 0;
  private_key_path = "";
  private_key_env = "";
  api_base_url = "";
}

abbrev no_ssh : IntegrationSsh
no_ssh = record {
  key_path = "";
  key_env = "";
  key_passphrase_env = "";
  known_hosts_path = "";
  insecure_ignore_host_key = false;
}

abbrev no_https : IntegrationHttps
no_https = record { username = ""; token_env = "" }

-- The parts that the entry has not are left at their zero values.
unfoldable pub integration_response_from_entry : Setup → IntegrationEntry → IntegrationResponse
integration_response_from_entry u e =
    let a = get_or e.github_app no_app in
    let k = get_or e.ssh no_ssh in
    let h = get_or e.https no_https in
    record {
      id = e.id;
      name = e.name;
      kind = e.kind;
      github_app_id = a.app_id;
      github_installation_id = a.installation_id;
      github_private_key_path = a.private_key_path;
      github_private_key_env = a.private_key_env;
      github_api_base_url = a.api_base_url;
      ssh_key_path = k.key_path;
      ssh_key_env = k.key_env;
      ssh_key_passphrase_env = k.key_passphrase_env;
      ssh_known_hosts_path = k.known_hosts_path;
      ssh_insecure_ignore_host_key = k.insecure_ignore_host_key;
      https_username = h.username;
      https_token_env = h.token_env;
      source = "dynamic";
      created_at = u.format e.created_at;
      updated_at = u.format e.updated_at;
    }

abbrev integration_responses : Setup → List IntegrationEntry → List IntegrationResponse
integration_responses u [] = []
integration_responses u (e ∷ es) = integration_response_from_entry u e ∷ integration_responses u es

unfoldable pub handle_list_settings_integrations : Setup → Settings → ℕ × List IntegrationResponse
handle_list_settings_integrations u st =
    if u.manages_integrations
    then (200, integration_responses u (Stored.list st.integrations))
    else (503, [])

abbrev integration_answer : Setup → Result IntegrationEntry → ℕ × Option IntegrationResponse
integration_answer u (err x) = (missing_status x, none)
integration_answer u (ok e) = (200, some (integration_response_from_entry u e))

unfoldable pub handle_get_settings_integration :
    Setup → String → Settings → ℕ × Option IntegrationResponse
handle_get_settings_integration u id st =
    if u.manages_integrations
    then integration_answer u (Stored.get id st.integrations)
    else (503, none)

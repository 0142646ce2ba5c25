-- ===== src/Projects/Conversion.antt =====
-- internal/secrets/convert.go: the configuration of a stored project. The files of an SSH key are written below a
-- directory of the project; whether that succeeds is an argument.
use driftd.Prelude.{
  String, Bool, false, Option, none, some, [], ◌==◌, if◌then◌else◌, not, Result, ok, err, rejected,
  external, join,
}
use driftd.Config.{ProjectConfig, GitAuthConfig}
use driftd.Secrets.Projects.{ProjectEntry, ProjectCredentials, ProjectGitHubApp}
use driftd.Secrets.Integrations.{
  IntegrationEntry, IntegrationGitHubApp, IntegrationSsh, IntegrationHttps,
}

abbrev pub empty_git : String → GitAuthConfig
empty_git kind = record {
  kind = kind;
  ssh_key_path = "";
  ssh_key_env = "";
  ssh_key_passphrase_env = "";
  ssh_known_hosts_path = "";
  ssh_insecure_ignore_host_key = false;
  https_username = "";
  https_token = "";
  https_token_env = "";
  github_app = none;
}

abbrev app_of_integration : GitAuthConfig → Option IntegrationGitHubApp → Result GitAuthConfig
app_of_integration g none = err rejected
app_of_integration g (some a) = ok (record g {
  github_app = some (record {
    app_id = a.app_id;
    installation_id = a.installation_id;
    private_key = "";
    private_key_path = a.private_key_path;
    private_key_env = a.private_key_env;
    api_base_url = a.api_base_url;
  });
})

abbrev ssh_of_integration : GitAuthConfig → Option IntegrationSsh → Result GitAuthConfig
ssh_of_integration g none = err rejected
ssh_of_integration g (some s) = ok (record g {
  ssh_key_path = s.key_path;
  ssh_key_env = s.key_env;
  ssh_key_passphrase_env = s.key_passphrase_env;
  ssh_known_hosts_path = s.known_hosts_path;
  ssh_insecure_ignore_host_key = s.insecure_ignore_host_key;
})

abbrev https_of_integration : GitAuthConfig → Option IntegrationHttps → Result GitAuthConfig
https_of_integration g none = err rejected
https_of_integration g (some h) =
    ok (record g { https_username = h.username; https_token_env = h.token_env })

unfoldable pub git_config_from_integration : IntegrationEntry → Result GitAuthConfig
git_config_from_integration i =
    let g = empty_git i.kind in
    if i.kind == "github_app"
    then app_of_integration g i.github_app
    else if i.kind == "ssh"
    then ssh_of_integration g i.ssh
    else if i.kind == "https"
    then https_of_integration g i.https
    else err rejected

-- The paths of the key and of the known hosts; `writable` says of a file whether it can be written.
unfoldable pub write_ssh_credentials :
    (String → Bool) → String → String → ProjectCredentials → Result (String × String)
write_ssh_credentials writable name data_dir creds =
    let base_dir = join data_dir (join "project-creds" name) in
    let key_path = join base_dir "id_ssh" in
    let known_hosts_path = join base_dir "known_hosts" in
    if not (writable key_path)
    then err external
    else if creds.ssh_known_hosts == ""
    then err rejected
    else if not (writable known_hosts_path)
    then err external
    else ok (key_path, known_hosts_path)

abbrev app_of_entry : ProjectCredentials → Option ProjectGitHubApp → Result GitAuthConfig
app_of_entry creds none = err rejected
app_of_entry creds (some a) =
    if creds.github_app_private_key == ""
    then err rejected
    else ok (record (empty_git "github_app") {
      github_app = some (record {
        app_id = a.app_id;
        installation_id = a.installation_id;
        private_key = creds.github_app_private_key;
        private_key_path = "";
        private_key_env = "";
        api_base_url = "";
      });
    })

abbrev ssh_of_entry : Result (String × String) → Result GitAuthConfig
ssh_of_entry (err e) = err e
ssh_of_entry (ok (key, hosts)) =
    ok (record (empty_git "ssh") { ssh_key_path = key; ssh_known_hosts_path = hosts })

-- The switch on the type of the entry's credentials.
abbrev pub git_config_from_entry :
    (String → Bool) → String → ProjectEntry → ProjectCredentials → Result GitAuthConfig
git_config_from_entry writable data_dir entry creds =
    if entry.git.kind == "github_app"
    then app_of_entry creds entry.git.github_app
    else if entry.git.kind == "https"
    then ok (record (empty_git "https") {
      https_username = creds.https_username;
      https_token = creds.https_token;
    })
    else if entry.git.kind == "ssh"
    then (if creds.ssh_private_key == ""
        then err rejected
        else ssh_of_entry (write_ssh_credentials writable entry.name data_dir creds))
    else err rejected

-- The configuration without the access to its repository.
abbrev pub plain_config : ProjectEntry → ProjectConfig
plain_config entry = record {
  name = entry.name;
  url = entry.url;
  branch = entry.branch;
  ignore_paths = some entry.ignore_paths;
  schedule = entry.schedule;
  cancel_inflight_on_new_trigger = some entry.cancel_inflight;
  git = none;
  projects = [];
  root_path = "";
  clone_url = entry.url;
}

abbrev pub with_git : ProjectConfig → Result GitAuthConfig → Result ProjectConfig
with_git c (err e) = err e
with_git c (ok g) = ok (record c { git = some g })

-- The entry and the credentials are not nil.
unfoldable pub project_config_from_entry :
    (String → Bool)
    → String
    → ProjectEntry
    → ProjectCredentials
    → Option IntegrationEntry
    → Result ProjectConfig
project_config_from_entry writable data_dir entry creds (some i) =
    with_git (plain_config entry) (git_config_from_integration i)
project_config_from_entry writable data_dir entry creds none =
    if entry.git.kind == ""
    then ok (plain_config entry)
    else with_git (plain_config entry) (git_config_from_entry writable data_dir entry creds)

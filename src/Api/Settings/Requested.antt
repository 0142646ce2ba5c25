-- ===== src/Api/Settings/Requested.antt =====
-- internal/api/handlers_settings.go: the entry and the credentials that a create or an update of a project makes of
-- its request. The pointer to the GitHub App that an update shares with the stored entry is a value
-- here.
use driftd.Prelude.{
  ℕ, String, true, Option, none, some, [], ◌==◌, nat_eq, not, ◌&&◌, ◌||◌, if◌then◌else◌, get_or,
  trim_space, Result, ok, err,
}
use driftd.Secrets.Projects.{
  ProjectEntry, ProjectCredentials, ProjectGitConfig, ProjectGitHubApp, no_credentials,
}
use driftd.Secrets.Integrations.{IntegrationEntry}
use driftd.Api.Settings.{ProjectRequest, Setup, Settings, get_integration}

abbrev pub no_git : ProjectGitConfig
no_git = record { kind = ""; github_app = none }

-- The entry that a new project starts from.
abbrev pub requested_entry : ProjectRequest → ProjectEntry
requested_entry q = record {
  name = q.name;
  url = q.url;
  branch = get_or q.branch "";
  ignore_paths = get_or q.ignore_paths [];
  integration_id = "";
  git = no_git;
  schedule = get_or q.schedule "";
  cancel_inflight = get_or q.cancel_inflight true;
  encrypted_credentials = "";
  created_at = 0;
  updated_at = 0;
}

-- The entry and the credentials of a request, `none` for one that is answered with 400.
abbrev pub Parts : Type 0
Parts = Option (ProjectEntry × Option ProjectCredentials)

abbrev pub with_integration : ProjectEntry → Result IntegrationEntry → Parts
with_integration e (err x) = none
with_integration e (ok i) = some (record e { integration_id = i.id }, none)

abbrev with_app : ProjectEntry → ProjectRequest → ProjectEntry
with_app e q = record e {
  git = record {
    kind = "github_app";
    github_app =
        some (record { app_id = q.github_app_id; installation_id = q.github_installation_id });
  };
}

abbrev of_kind : ProjectEntry → String → ProjectEntry
of_kind e kind = record e { git = record { kind = kind; github_app = none } }

abbrev pub ssh_credentials : ProjectRequest → ProjectCredentials
ssh_credentials q = record no_credentials {
  ssh_private_key = q.ssh_private_key;
  ssh_known_hosts = q.ssh_known_hosts;
}

abbrev pub https_credentials : ProjectRequest → ProjectCredentials
https_credentials q = record no_credentials {
  https_token = q.https_token;
  https_username = q.https_username;
}

abbrev pub app_credentials : ProjectRequest → ProjectCredentials
app_credentials q = record no_credentials { github_app_private_key = q.github_private_key }

abbrev pub with_credentials : ProjectEntry → ProjectRequest → Parts
with_credentials e q =
    if q.auth_type == "github_app"
    then (if nat_eq q.github_app_id 0 || nat_eq q.github_installation_id 0
        then none
        else if q.github_private_key == ""
        then none
        else some (with_app e q, some (app_credentials q)))
    else if q.auth_type == "ssh"
    then (if q.ssh_private_key == "" || q.ssh_known_hosts == ""
        then none
        else some (of_kind e "ssh", some (ssh_credentials q)))
    else if q.auth_type == "https"
    then some (
      of_kind e "https",
      some (if q.https_token == "" then no_credentials else https_credentials q),
    )
    else none

abbrev pub created_parts : Setup → ProjectRequest → Settings → Parts
created_parts u q st =
    let id = trim_space (get_or q.integration_id "") in
    if id == ""
    then with_credentials (requested_entry q) q
    else with_integration (requested_entry q) (get_integration u id st)

-- What an update makes of the entry, but for the access to the repository.
abbrev pub revised_entry : ProjectEntry → ProjectRequest → String → String → ProjectEntry
revised_entry e q integration_id auth_type = record {
  name = e.name;
  url = if q.url == "" then e.url else q.url;
  branch = get_or q.branch e.branch;
  ignore_paths = get_or q.ignore_paths e.ignore_paths;
  integration_id = integration_id;
  git = record { kind = auth_type; github_app = none };
  schedule = get_or q.schedule e.schedule;
  cancel_inflight = get_or q.cancel_inflight e.cancel_inflight;
  encrypted_credentials = "";
  created_at = 0;
  updated_at = 0;
}

abbrev trimmed_or : Option String → String → String
trimmed_or none s = s
trimmed_or (some id) s = trim_space id

abbrev pub chosen_integration : ProjectEntry → ProjectRequest → String
chosen_integration e q = trimmed_or q.integration_id e.integration_id

abbrev pub chosen_auth : ProjectEntry → ProjectRequest → String
chosen_auth e q =
    if q.auth_type == "" && chosen_integration e q == "" then e.git.kind else q.auth_type

-- The branch with an integration.
abbrev pub integrated : ProjectEntry → Result IntegrationEntry → Parts
integrated e (err x) = none
integrated e (ok i) = some (record e { git = no_git }, some no_credentials)

-- The branch with new credentials.
abbrev pub renewed : ProjectEntry → ProjectRequest → Parts
renewed e q =
    if e.git.kind == "github_app"
    then (if nat_eq q.github_app_id 0 || nat_eq q.github_installation_id 0
        then none
        else some (with_app e q, some (app_credentials q)))
    else if e.git.kind == "ssh"
    then (if q.ssh_known_hosts == "" then none else some (e, some (ssh_credentials q)))
    else if e.git.kind == "https"
    then some (e, some (https_credentials q))
    else some (e, some no_credentials)

abbrev numbered : ℕ → ℕ → ℕ
numbered given old = if nat_eq given 0 then old else given

-- The app of the entry with the numbers that the request gives.
abbrev merged_app : ProjectRequest → Option ProjectGitHubApp → Option ProjectGitHubApp
merged_app q none =
    if nat_eq q.github_app_id 0 && nat_eq q.github_installation_id 0
    then none
    else some (record { app_id = q.github_app_id; installation_id = q.github_installation_id })
merged_app q (some a) = some (record {
  app_id = numbered q.github_app_id a.app_id;
  installation_id = numbered q.github_installation_id a.installation_id;
})

-- The branch without credentials, which a change of the access needs.
abbrev pub kept_access : ProjectEntry → ProjectEntry → ProjectRequest → Parts
kept_access old e q =
    if (not (e.git.kind == "") && not (e.git.kind == old.git.kind))
      || not (e.integration_id == old.integration_id)
    then none
    else if e.git.kind == "github_app"
    then some (
      record e {
        git = record { kind = "github_app"; github_app = merged_app q old.git.github_app };
      },
      none,
    )
    else some (e, none)

abbrev pub updated_parts : Setup → ProjectEntry → ProjectRequest → Settings → Parts
updated_parts u old q st =
    let id = chosen_integration old q in
    let e = revised_entry old q id (chosen_auth old q) in
    if not (id == "")
    then integrated e (get_integration u id st)
    else if not (q.github_private_key == "")
        || not (q.ssh_private_key == "")
        || not (q.https_token == "")
    then renewed e q
    else kept_access old e q

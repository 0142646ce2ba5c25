-- ===== src/Api/Repos.antt =====
-- internal/api/helpers.go: the projects that the API looks up by name and by URL.
use driftd.Prelude.{
  String, Bool, false, Option, none, some, List, [], ◌∷◌, ◌++◌, ◌==◌, not, ◌&&◌, if◌then◌else◌,
  is_some, elem, sort_strings, Result, ok, err, project_not_found,
}
use driftd.Config.{ProjectConfig, GitHubAppConfig, get_project, effective_clone_url}
use driftd.Secrets.Projects.{ProjectStore, ProjectEntry, ProjectGitHubApp}
use driftd.Secrets.Projects as Stored
use driftd.Projects.Conversion.{plain_config, empty_git}
use driftd.Projects.Provider.{CombinedProvider, provider_get}
use driftd.Projects.Urls.{canonical_url}

-- What the lookups of the server read; a nil provider or store is none.
pub record Sources : Type 0 where
  pub configured : List ProjectConfig
  pub provider : Option CombinedProvider
  pub store : Option ProjectStore
  -- url.Parse: the host and the path
  pub parse : String → Option (String × String)

abbrev pub configured_config : Option ProjectConfig → Result ProjectConfig
configured_config none = err project_not_found
configured_config (some p) = ok p

abbrev pub config_from : Sources → String → Option CombinedProvider → Result ProjectConfig
config_from w name (some p) = provider_get p name
config_from w name none = configured_config (get_project name w.configured)

unfoldable pub get_project_config : Sources → String → Result ProjectConfig
get_project_config w name = config_from w name w.provider

abbrev pub app_numbers : Option ProjectGitHubApp → Option GitHubAppConfig
app_numbers none = none
app_numbers (some a) = some (record {
  app_id = a.app_id;
  installation_id = a.installation_id;
  private_key = "";
  private_key_path = "";
  private_key_env = "";
  api_base_url = "";
})

-- A stored project without its credentials.
abbrev pub listed_config : ProjectEntry → ProjectConfig
listed_config e = record (plain_config e) {
  git =
      if e.git.kind == ""
      then none
      else some (record (empty_git e.git.kind) { github_app = app_numbers e.git.github_app });
}

-- The stored projects whose names are not configured.
abbrev pub listed_entries : List ProjectConfig → List ProjectEntry → List ProjectConfig
listed_entries configured [] = []
listed_entries configured (e ∷ es) =
    let rest = listed_entries configured es in
    if is_some (get_project e.name configured) then rest else listed_config e ∷ rest

abbrev pub listed_store : List ProjectConfig → Option ProjectStore → List ProjectConfig
listed_store configured none = configured
listed_store configured (some s) = configured ++ listed_entries configured (Stored.list s)

unfoldable pub list_configured_repos : Sources → List ProjectConfig
list_configured_repos w = listed_store w.configured w.store

-- The canonical forms of the URLs that have one.
abbrev pub canonical_urls : (String → Option (String × String)) → List String → List String
canonical_urls parse [] = []
canonical_urls parse (u ∷ us) = with_canonical (canonical_url parse u) (canonical_urls parse us)
  where
    with_canonical : Option String → List String → List String
    with_canonical none rest = rest
    with_canonical (some c) rest = c ∷ rest

abbrev pub is_candidate : List String → Option String → Bool
is_candidate urls none = false
is_candidate urls (some c) = elem c urls

-- The names of the projects with one of the URLs, each once.
abbrev pub names_by_url :
    (String → Option (String × String)) → List String → List ProjectConfig → List String
names_by_url parse urls [] = []
names_by_url parse urls (p ∷ ps) =
    let rest = names_by_url parse urls ps in
    if is_candidate urls (canonical_url parse (effective_clone_url p)) && not (elem p.name rest)
    then p.name ∷ rest
    else rest

-- One lookup in front of the others; a project that is gone is passed over.
abbrev pub with_config :
    Result ProjectConfig → Result (List ProjectConfig) → Result (List ProjectConfig)
with_config (err project_not_found) rest = rest
with_config (err e) rest = err e
with_config (ok p) (err e) = err e
with_config (ok p) (ok ps) = ok (p ∷ ps)

abbrev pub configs_of : Sources → List String → Result (List ProjectConfig)
configs_of w [] = ok []
configs_of w (name ∷ names) = with_config (get_project_config w name) (configs_of w names)

unfoldable pub get_repos_by_url : Sources → List String → Result (List ProjectConfig)
get_repos_by_url w urls =
    configs_of w
      (sort_strings (names_by_url w.parse (canonical_urls w.parse urls) (list_configured_repos w)))

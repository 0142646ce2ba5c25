-- ===== src/Projects/Provider.antt =====
-- internal/projects/provider.go: the lookups over the configuration and the store.
use driftd.Prelude.{
  String, Bool, Option, none, some, List, [], ◌∷◌, ◌++◌, ◌==◌, if◌then◌else◌, is_some, Result, ok,
  err, rejected, project_not_found,
}
use driftd.Config.{ProjectConfig, get_project}
use driftd.Secrets.Projects.{
  ProjectStore, ProjectEntry, ProjectCredentials, Cipher, key_of, get_with_credentials, with_lookup,
}
use driftd.Secrets.Projects as Stored
use driftd.Secrets.Integrations.{IntegrationEntry, IntegrationStore}
use driftd.Secrets.Integrations as Integrations
use driftd.Projects.Conversion.{project_config_from_entry}

-- What the provider is made of, with the outcome of writes of key files.
pub record CombinedProvider : Type 0 where
  pub projects : List ProjectConfig
  pub store : Option ProjectStore
  pub integrations : Option IntegrationStore
  pub cipher : Cipher
  pub data_dir : String
  pub writable : String → Bool

abbrev pub integration_in : Result IntegrationEntry → Result (Option IntegrationEntry)
integration_in (err e) = err e
integration_in (ok i) = ok (some i)

abbrev integration_from : Option IntegrationStore → String → Result (Option IntegrationEntry)
integration_from none id = err rejected
integration_from (some s) id = integration_in (Integrations.get id s)

unfoldable pub lookup_integration : CombinedProvider → String → Result (Option IntegrationEntry)
lookup_integration p id = if id == "" then ok none else integration_from p.integrations id

abbrev pub converted :
    CombinedProvider
    → ProjectEntry
    → ProjectCredentials
    → Result (Option IntegrationEntry)
    → Result ProjectConfig
converted p entry creds (err e) = err e
converted p entry creds (ok i) = project_config_from_entry p.writable p.data_dir entry creds i

abbrev pub from_store :
    CombinedProvider → Result (ProjectEntry × ProjectCredentials) → Result ProjectConfig
from_store p (err e) = err e
from_store p (ok (entry, creds)) =
    converted p entry creds (lookup_integration p entry.integration_id)

-- The project of a name in the store.
abbrev pub stored_config : CombinedProvider → ProjectStore → String → Result ProjectConfig
stored_config p s name = from_store p (get_with_credentials p.cipher name s)

abbrev pub configured_or :
    CombinedProvider → String → Option ProjectStore → Option ProjectConfig → Result ProjectConfig
configured_or p name s (some c) = ok c
configured_or p name none none = err project_not_found
configured_or p name (some s) none = stored_config p s name

unfoldable pub provider_get : CombinedProvider → String → Result ProjectConfig
provider_get p name = configured_or p name p.store (get_project name p.projects)

abbrev pub cons_config :
    Result ProjectConfig → Result (List ProjectConfig) → Result (List ProjectConfig)
cons_config (err e) rest = err e
cons_config (ok c) (err e) = err e
cons_config (ok c) (ok cs) = ok (c ∷ cs)

-- The stored projects whose names are not configured, up to the first that fails.
abbrev pub stored_configs :
    CombinedProvider → ProjectStore → List ProjectEntry → Result (List ProjectConfig)
stored_configs p s [] = ok []
stored_configs p s (e ∷ es) =
    let rest = stored_configs p s es in
    if is_some (get_project e.name p.projects)
    then rest
    else cons_config (stored_config p s e.name) rest

abbrev pub listed : List ProjectConfig → Result (List ProjectConfig) → Result (List ProjectConfig)
listed cs (err e) = err e
listed cs (ok ds) = ok (cs ++ ds)

abbrev pub list_with : CombinedProvider → Option ProjectStore → Result (List ProjectConfig)
list_with p none = ok p.projects
list_with p (some s) = listed p.projects (stored_configs p s (Stored.list s))

unfoldable pub provider_list : CombinedProvider → Result (List ProjectConfig)
provider_list p = list_with p p.store

-- ===== src/Api/Settings/Integrations.antt =====
-- internal/api/handlers_settings.go: the handlers of the integrations. The number of a new id is the reading of
-- the clock, `now`.
use Prim.Native.Char.{code}
use Prim.Native.String.{◌++◌}
use driftd.Prelude.{
  ℕ, String, Bool, false, Option, none, some, List, [], ◌∷◌, ◌==◌, nat_eq, leb, not, ◌&&◌, ◌||◌,
  if◌then◌else◌, to_lower, Result, ok, err, Error, rejected, integration_not_found,
  integration_already_exists,
}
use driftd.Queue.Keys.{decimal}
use driftd.Secrets.Integrations.{IntegrationEntry, IntegrationStore}
use driftd.Secrets.Integrations as Stored
use driftd.Secrets.Projects.{ProjectEntry}
use driftd.Secrets.Projects as Projects
use driftd.Api.Settings.{IntegrationRequest, Setup, Settings, Reading}

-- The parts of the request for one type; the checks of the others do not count.
abbrev entry_without_access : String → IntegrationRequest → IntegrationEntry
entry_without_access id q = record {
  id = id;
  name = q.name;
  kind = q.kind;
  github_app = none;
  ssh = none;
  https = none;
  created_at = 0;
  updated_at = 0;
}

unfoldable pub integration_entry_from_request :
    String → IntegrationRequest → Result IntegrationEntry
integration_entry_from_request id q =
    if q.kind == "github_app"
    then (if nat_eq q.github_app_id 0 || nat_eq q.github_installation_id 0
        then err rejected
        else if q.github_private_key_path == "" && q.github_private_key_env == ""
        then err rejected
        else ok (record (entry_without_access id q) {
          github_app = some (record {
            app_id = q.github_app_id;
            installation_id = q.github_installation_id;
            private_key_path = q.github_private_key_path;
            private_key_env = q.github_private_key_env;
            api_base_url = q.github_api_base_url;
          });
        }))
    else if q.kind == "ssh"
    then (if q.ssh_key_path == "" && q.ssh_key_env == ""
        then err rejected
        else if q.ssh_known_hosts_path == "" && not q.ssh_insecure_ignore_host_key
        then err rejected
        else ok (record (entry_without_access id q) {
          ssh = some (record {
            key_path = q.ssh_key_path;
            key_env = q.ssh_key_env;
            key_passphrase_env = q.ssh_key_passphrase_env;
            known_hosts_path = q.ssh_known_hosts_path;
            insecure_ignore_host_key = q.ssh_insecure_ignore_host_key;
          });
        }))
    else if q.kind == "https"
    then (if q.https_token_env == ""
        then err rejected
        else ok (record (entry_without_access id q) {
          https = some (record { username = q.https_username; token_env = q.https_token_env });
        }))
    else err rejected

-- The code of a character of an id: ' ', '_' and '.' become '-'; the rest but letters, digits and
-- '-' goes.
abbrev is_dashed : ℕ → Bool
is_dashed c = nat_eq c 32 || nat_eq c 95 || nat_eq c 46

abbrev is_id_char : ℕ → Bool
is_id_char c = leb 97 c && leb c 122 || leb 48 c && leb c 57 || nat_eq c 45

unfoldable pub id_chars : String → String
id_chars String.[] = ""
id_chars (String.◌∷◌ c s) =
    let rest = id_chars s in
    if is_dashed (code c)
    then "-" ++ rest
    else if is_id_char (code c)
    then String.◌∷◌ c rest
    else rest

unfoldable pub new_integration_id : String → ℕ → String
new_integration_id name nanos =
    let base = id_chars (to_lower name) in
    (if base == "" then "integration" else base) ++ ("-" ++ decimal nanos)

abbrev pub is_referenced : String → List ProjectEntry → Bool
is_referenced id [] = false
is_referenced id (e ∷ es) = let rest = is_referenced id es in e.integration_id == id || rest

abbrev pub missing_status : Error → ℕ
missing_status integration_not_found = 404
missing_status _ = 500

abbrev pub add_status : Error → ℕ
add_status integration_already_exists = 409
add_status _ = 500

-- A status with what the store becomes.
abbrev pub answered : ℕ → (Error → ℕ) → Settings → Result {0} Unit × IntegrationStore → ℕ × Settings
answered status refused st (ok tt, is) = (status, record st { integrations = is })
answered status refused st (err x, is) = (refused x, record st { integrations = is })

abbrev pub create_entry : Reading → String → Settings → Result IntegrationEntry → ℕ × Settings
create_entry t name st (err x) = (400, st)
create_entry t name st (ok e) =
    answered 201 add_status st
      (Stored.add t.now (record e { id = new_integration_id name t.now }) st.integrations)

abbrev pub create_decoded : Reading → Settings → Option IntegrationRequest → ℕ × Settings
create_decoded t st none = (400, st)
create_decoded t st (some q) =
    if q.name == ""
    then (400, st)
    else if q.kind == ""
    then (400, st)
    else create_entry t q.name st (integration_entry_from_request "" q)

unfoldable pub handle_create_settings_integration :
    Setup → Reading → Option IntegrationRequest → Settings → ℕ × Settings
handle_create_settings_integration u t body st =
    if u.manages_integrations then create_decoded t st body else (503, st)

-- What the request leaves empty is as it was.
abbrev pub completed : IntegrationEntry → IntegrationRequest → IntegrationRequest
completed e q = record q {
  name = if q.name == "" then e.name else q.name;
  kind = if q.kind == "" then e.kind else q.kind;
}

abbrev pub update_entry : Reading → String → Settings → Result IntegrationEntry → ℕ × Settings
update_entry t id st (err x) = (400, st)
update_entry t id st (ok e) = answered 200 (λ x. 500) st (Stored.update t.now id e st.integrations)

abbrev pub update_decoded :
    Reading → String → IntegrationEntry → Settings → Option IntegrationRequest → ℕ × Settings
update_decoded t id old st none = (400, st)
update_decoded t id old st (some q) =
    update_entry t id st (integration_entry_from_request id (completed old q))

abbrev pub update_found :
    Reading → String → Option IntegrationRequest → Settings → Result IntegrationEntry → ℕ × Settings
update_found t id body st (err x) = (missing_status x, st)
update_found t id body st (ok old) = update_decoded t id old st body

unfoldable pub handle_update_settings_integration :
    Setup → Reading → String → Option IntegrationRequest → Settings → ℕ × Settings
handle_update_settings_integration u t id body st =
    if u.manages_integrations
    then update_found t id body st (Stored.get id st.integrations)
    else (503, st)

unfoldable pub handle_delete_settings_integration : Setup → String → Settings → ℕ × Settings
handle_delete_settings_integration u id st =
    if not u.manages_integrations
    then (503, st)
    else if u.manages_projects && is_referenced id (Projects.list st.projects)
    then (400, st)
    else answered 200 missing_status st (Stored.delete id st.integrations)

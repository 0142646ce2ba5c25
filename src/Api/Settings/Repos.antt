-- ===== src/Api/Settings/Repos.antt =====
-- internal/api/handlers_settings.go: the handlers of the projects that are added while the program runs.
use driftd.Prelude.{
  ℕ, String, Option, none, some, ◌==◌, not, ◌&&◌, if◌then◌else◌, get_or, is_some, trim_space,
  Result, ok, err, Error, project_already_exists, project_not_found,
}
use driftd.Config.{get_project}
use driftd.Config.Projects.{is_valid_project_name}
use driftd.Secrets.Projects.{
  ProjectStore, ProjectEntry, ProjectCredentials, ProjectGitConfig, ProjectGitHubApp,
  no_credentials,
}
use driftd.Secrets.Projects as Stored
use driftd.Scheduler.{on_project_added, on_project_updated, on_project_deleted}
use driftd.Api.Settings.{ProjectRequest, Setup, Settings, Reading}
use driftd.Api.Settings.Requested.{Parts, created_parts, updated_parts}

-- The checks before the entry is made, in their order; `none` lets the request on.
abbrev pub create_refusal : Setup → ProjectRequest → Option ℕ
create_refusal u q =
    if q.name == ""
    then some 400
    else if q.url == ""
    then some 400
    else if q.auth_type == "" && trim_space (get_or q.integration_id "") == ""
    then some 400
    else if not (is_valid_project_name q.name)
    then some 400
    else if is_some (get_project q.name u.configured)
    then some 409
    else none

abbrev pub add_status : Error → ℕ
add_status project_already_exists = 409
add_status _ = 500

abbrev pub after_add :
    Setup → ProjectEntry → Settings → Result {0} Unit × ProjectStore → ℕ × Settings
after_add u e st (ok tt, ps) = (
  201,
  record st {
    projects = ps;
    scheduler =
        if not (e.schedule == "") && u.follows
        then on_project_added u.parses e.name e.schedule st.scheduler
        else st.scheduler;
  },
)
after_add u e st (err x, ps) = (add_status x, record st { projects = ps })

abbrev pub create_from : Setup → Reading → Settings → Parts → ℕ × Settings
create_from u t st none = (400, st)
create_from u t st (some (e, creds)) =
    after_add u e st (Stored.add u.cipher t.nonce t.now e creds st.projects)

abbrev pub create_checked : Setup → Reading → ProjectRequest → Settings → Option ℕ → ℕ × Settings
create_checked u t q st (some status) = (status, st)
create_checked u t q st none = create_from u t st (created_parts u q st)

abbrev pub create_decoded : Setup → Reading → Settings → Option ProjectRequest → ℕ × Settings
create_decoded u t st none = (400, st)
create_decoded u t st (some q) = create_checked u t q st (create_refusal u q)

-- `body` is the decoded request, `none` for one that is no JSON.
unfoldable pub handle_create_settings_repo :
    Setup → Reading → Option ProjectRequest → Settings → ℕ × Settings
handle_create_settings_repo u t body st =
    if u.manages_projects then create_decoded u t st body else (503, st)

abbrev pub after_update :
    Setup → ProjectEntry → Settings → Result {0} Unit × ProjectStore → ℕ × Settings
after_update u e st (ok tt, ps) = (
  200,
  record st {
    projects = ps;
    scheduler =
        if u.follows
        then on_project_updated u.parses e.name e.schedule st.scheduler
        else st.scheduler;
  },
)
after_update u e st (err x, ps) = (500, record st { projects = ps })

abbrev pub update_from : Setup → Reading → String → Settings → Parts → ℕ × Settings
update_from u t name st none = (400, st)
update_from u t name st (some (e, creds)) =
    after_update u e st (Stored.update u.cipher t.nonce t.now name e creds st.projects)

abbrev pub update_decoded :
    Setup → Reading → String → ProjectEntry → Settings → Option ProjectRequest → ℕ × Settings
update_decoded u t name old st none = (400, st)
update_decoded u t name old st (some q) =
    if not (q.name == "") && not (q.name == old.name)
    then (400, st)
    else update_from u t name st (updated_parts u old q st)

abbrev pub missing_status : Error → ℕ
missing_status project_not_found = 404
missing_status _ = 500

abbrev pub update_found :
    Setup → Reading → String → Option ProjectRequest → Settings → Result ProjectEntry → ℕ × Settings
update_found u t name body st (err x) = (missing_status x, st)
update_found u t name body st (ok old) = update_decoded u t name old st body

unfoldable pub handle_update_settings_repo :
    Setup → Reading → String → Option ProjectRequest → Settings → ℕ × Settings
handle_update_settings_repo u t name body st =
    if is_some (get_project name u.configured)
    then (403, st)
    else if not u.manages_projects
    then (503, st)
    else update_found u t name body st (Stored.get name st.projects)

abbrev pub after_delete : Setup → String → Settings → Result {0} Unit × ProjectStore → ℕ × Settings
after_delete u name st (ok tt, ps) = (
  200,
  record st {
    projects = ps;
    scheduler = if u.follows then on_project_deleted name st.scheduler else st.scheduler;
  },
)
after_delete u name st (err x, ps) = (missing_status x, record st { projects = ps })

unfoldable pub handle_delete_settings_repo : Setup → String → Settings → ℕ × Settings
handle_delete_settings_repo u name st =
    if is_some (get_project name u.configured)
    then (403, st)
    else if not u.manages_projects
    then (503, st)
    else after_delete u name st (Stored.delete name st.projects)

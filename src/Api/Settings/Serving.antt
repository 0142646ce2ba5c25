-- ===== src/Api/Settings/Serving.antt =====
-- internal/api/handlers_settings.go: the requests that change the settings, one after the other. The handlers take
-- no lock of their own around what they read and what they write: a request is served here between
-- two others.
use driftd.Prelude.{ℕ, String, Option}
use driftd.Api.Settings.{ProjectRequest, IntegrationRequest, Setup, Settings, Reading}
use driftd.Api.Settings.Repos.{
  handle_create_settings_repo, handle_update_settings_repo, handle_delete_settings_repo,
}
use driftd.Api.Settings.Integrations.{
  handle_create_settings_integration, handle_update_settings_integration,
  handle_delete_settings_integration,
}

pub data Change : Type 0 where
  creates_repo : Reading → Option ProjectRequest → Change
  updates_repo : Reading → String → Option ProjectRequest → Change
  deletes_repo : String → Change
  creates_integration : Reading → Option IntegrationRequest → Change
  updates_integration : Reading → String → Option IntegrationRequest → Change
  deletes_integration : String → Change

abbrev pub serve : Setup → Change → Settings → ℕ × Settings
serve u (creates_repo t body) st = handle_create_settings_repo u t body st
serve u (updates_repo t name body) st = handle_update_settings_repo u t name body st
serve u (deletes_repo name) st = handle_delete_settings_repo u name st
serve u (creates_integration t body) st = handle_create_settings_integration u t body st
serve u (updates_integration t id body) st = handle_update_settings_integration u t id body st
serve u (deletes_integration id) st = handle_delete_settings_integration u id st

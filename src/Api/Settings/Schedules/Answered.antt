-- ===== src/Api/Settings/Schedules/Answered.antt =====
-- The scheduler follows internal/api/handlers_settings.go as long as the stores can be written.
use driftd.Secrets.Projects.{ProjectStore, ProjectCredentials, key_of, without_credentials}
use driftd.Secrets.Projects as Projects
use driftd.Secrets.Integrations as Stored
use driftd.Api.Settings.{Settings}
use driftd.Api.Settings.Integrations as Handlers

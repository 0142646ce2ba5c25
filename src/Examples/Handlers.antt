-- ===== src/Examples/Handlers.antt =====
-- The theorems on the handlers of the settings, at concrete data.
use driftd.Prelude.{
  true, none, some, [], ◌∷◌, ◌==◌, ◌≡◌, refl, sym, ◌∙◌, ok, err, external, Bool-cases, inl, inr,
  to_lower,
}
use driftd.Secrets.Projects.{ProjectEntry}
use driftd.Secrets.Projects as Projects
use driftd.Secrets.Integrations.{IntegrationEntry}
use driftd.Api.Settings.{ProjectRequest, Setup, Settings}
use driftd.Api.Settings.Integrations.{
  handle_delete_settings_integration, new_integration_id, id_chars,
}
use driftd.Api.Settings.Serving.{serve, deletes_integration}
use driftd.Api.Settings.References.{Sound}
use driftd.Api.Settings.References.Kept.{serve-Sound}
use driftd.Queue.Keys.{decimal}

abbrev setup : Setup
setup = record {
  configured = [];
  manages_projects = true;
  manages_integrations = true;
  follows = true;
  cipher = record { seal = λ n c. ok "blob"; unseal = λ s. err external };
  parses = λ s. s == "@daily";
  format = λ n. "";
}

abbrev empty : Settings
empty = record {
  projects = record { entries = []; file = none; writes = [] };
  integrations = record { entries = []; file = none; writes = [] };
  scheduler = record { jobs = []; next = 1; entries = [] };
}

abbrev integration : IntegrationEntry
integration = record {
  id = "i";
  name = "n";
  kind = "https";
  github_app = none;
  ssh = none;
  https = none;
  created_at = 3;
  updated_at = 3;
}

-- A project that refers to the integration.
abbrev project : ProjectEntry
project = record {
  name = "a";
  url = "git@host:r";
  branch = "";
  ignore_paths = [];
  integration_id = "i";
  git = record { kind = ""; github_app = none };
  schedule = "";
  cancel_inflight = true;
  encrypted_credentials = "";
  created_at = 3;
  updated_at = 3;
}

abbrev referring : Settings
referring = record empty {
  projects = record { entries = ("a", project) ∷ []; file = none; writes = [] };
  integrations = record { entries = ("i", integration) ∷ []; file = none; writes = [] };
}

referring-Sound : Sound referring
referring-Sound = (
  (refl, refl, tt),
  λ k e h. elim (Bool-cases ("a" == k)) [
    | inl b ↦ rw (sym (same (sym (rw b refl) ∙ h))) refl
    | inr b ↦ absurd (clash (sym (rw b refl) ∙ h))
  ],
)
  where
    same : {e : ProjectEntry} → some project ≡ some e → project ≡ e
    same h = cc

    clash : {e : ProjectEntry} → none ≡ some e → ⊥
    clash h = cc

serve-Sound_example : Sound (serve setup (deletes_integration "i") referring).1
serve-Sound_example = serve-Sound setup (deletes_integration "i") referring refl referring-Sound

-- The integration is in use.
delete_refused : handle_delete_settings_integration setup "i" referring ≡ (400, referring)
unfolding handle_delete_settings_integration Projects.list
delete_refused = refl

abbrev request : ProjectRequest
request = record {
  name = "b";
  url = "https://host/r";
  branch = none;
  ignore_paths = none;
  schedule = some "@daily";
  cancel_inflight = none;
  auth_type = "https";
  integration_id = none;
  github_app_id = 0;
  github_installation_id = 0;
  github_private_key = "";
  ssh_private_key = "";
  ssh_known_hosts = "";
  https_username = "u";
  https_token = "s3cret";
}

new_id : new_integration_id "My Key_1" 42 ≡ "my-key-1-42"
unfolding new_integration_id id_chars decimal to_lower
new_id = refl

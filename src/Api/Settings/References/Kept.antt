-- ===== src/Api/Settings/References/Kept.antt =====
-- internal/api/handlers_settings.go never leaves a project with an integration that is gone.
use driftd.Prelude.{
  ℕ, String, Bool, true, false, Option, none, some, ◌==◌, ◌≡◌, is_some, not, if◌then◌else◌, Result,
  ok, err, Error, Bool-cases, inl, inr,
}
use driftd.Config.{get_project}
use driftd.Secrets.Projects.{ProjectStore, ProjectEntry}
use driftd.Secrets.Projects as Projects
use driftd.Secrets.Integrations.{
  IntegrationEntry, IntegrationStore, id_of, updated, update_existing,
}
use driftd.Secrets.Integrations as Stored
use driftd.Api.Settings.{ProjectRequest, IntegrationRequest, Setup, Settings, Reading}
use driftd.Api.Settings.Requested.{Parts, created_parts, updated_parts}
use driftd.Api.Settings.Repos.{
  handle_create_settings_repo, handle_update_settings_repo, handle_delete_settings_repo, after_add,
  after_update, after_delete, create_from, create_checked, create_decoded, update_from,
  update_decoded, update_found, create_refusal,
}
use driftd.Api.Settings.Integrations.{
  handle_create_settings_integration, handle_update_settings_integration,
  handle_delete_settings_integration, is_referenced,
}
use driftd.Api.Settings.Integrations as Handlers
use driftd.Api.Settings.Serving.{
  Change, creates_repo, updates_repo, deletes_repo, creates_integration, updates_integration,
  deletes_integration, serve,
}
use driftd.Api.Settings.References.{
  Referring, Sound, add-Referring, update-Referring, delete-Referring,
}
use driftd.Api.Settings.References.Parts.{Good, created_parts-Good, updated_parts-Good}
use driftd.Api.Settings.References.Entries.{Fits, add-Fits, update-Fits, delete-Fits}

if-Sound : (b : Bool) (p q : ℕ × Settings) → Sound p.1 → Sound q.1 → Sound (if b then p else q).1
if-Sound true p q g k = g
if-Sound false p q g k = k

module _ (u : Setup) (st : Settings) (sound : Sound st) where
  after_add-Sound :
      (e : ProjectEntry) (p : Result {0} Unit × ProjectStore)
      → Referring st.integrations.entries p.1.entries
      → Sound (after_add u e st p).1
  after_add-Sound e (ok tt, ps) r = (sound.0, r)
  after_add-Sound e (err x, ps) r = (sound.0, r)

  after_update-Sound :
      (e : ProjectEntry) (p : Result {0} Unit × ProjectStore)
      → Referring st.integrations.entries p.1.entries
      → Sound (after_update u e st p).1
  after_update-Sound e (ok tt, ps) r = (sound.0, r)
  after_update-Sound e (err x, ps) r = (sound.0, r)

  after_delete-Sound :
      (name : String) (p : Result {0} Unit × ProjectStore)
      → Referring st.integrations.entries p.1.entries
      → Sound (after_delete u name st p).1
  after_delete-Sound name (ok tt, ps) r = (sound.0, r)
  after_delete-Sound name (err x, ps) r = (sound.0, r)

  create_from-Sound :
      (t : Reading) (ps : Parts) → Good st.integrations.entries ps → Sound (create_from u t st ps).1
  create_from-Sound t none g = sound
  create_from-Sound t (some (e, creds)) g =
      after_add-Sound e _
        (add-Referring u st.integrations.entries t.nonce t.now e creds g st.projects sound.1)

  create_checked-Sound :
      (t : Reading) (q : ProjectRequest) (o : Option ℕ) → Sound (create_checked u t q st o).1
  create_checked-Sound t q (some status) = sound
  create_checked-Sound t q none =
      create_from-Sound t (created_parts u q st) (created_parts-Good u st sound.0 q)

  create_decoded-Sound :
      (t : Reading) (body : Option ProjectRequest) → Sound (create_decoded u t st body).1
  create_decoded-Sound t none = sound
  create_decoded-Sound t (some q) = create_checked-Sound t q (create_refusal u q)

  update_from-Sound :
      (t : Reading) (name : String) (ps : Parts)
      → Good st.integrations.entries ps
      → Sound (update_from u t name st ps).1
  update_from-Sound t name none g = sound
  update_from-Sound t name (some (e, creds)) g =
      after_update-Sound e _ (
        update-Referring u st.integrations.entries t.nonce t.now e creds g name st.projects sound.1)

  update_decoded-Sound :
      (t : Reading) (name : String) (old : ProjectEntry) (body : Option ProjectRequest)
      → Sound (update_decoded u t name old st body).1
  update_decoded-Sound t name old none = sound
  update_decoded-Sound t name old (some q) =
      if-Sound _ (400, st) (update_from u t name st (updated_parts u old q st)) sound
        (update_from-Sound t name (updated_parts u old q st)
          (updated_parts-Good u st sound.0 old q))

  update_found-Sound :
      (t : Reading) (name : String) (body : Option ProjectRequest) (r : Result ProjectEntry)
      → Sound (update_found u t name body st r).1
  update_found-Sound t name body (err x) = sound
  update_found-Sound t name body (ok old) = update_decoded-Sound t name old body

module _ (u : Setup) (st : Settings) (sound : Sound st) where
  answered-Sound :
      (status : ℕ) (refused : Error → ℕ) (p : Result {0} Unit × IntegrationStore)
      → Fits st.projects.entries p.1.entries
      → Sound (Handlers.answered status refused st p).1
  answered-Sound status refused (ok tt, is) f = f
  answered-Sound status refused (err x, is) f = f

  create_entry-Sound :
      (t : Reading) (name : String) (r : Result IntegrationEntry)
      → Sound (Handlers.create_entry t name st r).1
  create_entry-Sound t name (err x) = sound
  create_entry-Sound t name (ok i) = answered-Sound 201 Handlers.add_status _ (
      add-Fits st.projects.entries t.now (record i { id = Handlers.new_integration_id name t.now })
        st.integrations sound)

  create_body-Sound :
      (t : Reading) (body : Option IntegrationRequest) → Sound (Handlers.create_decoded t st body).1
  create_body-Sound t none = sound
  create_body-Sound t (some q) =
      if-Sound (q.name == "") (400, st) _ sound
        (if-Sound (q.kind == "") (400, st) _ sound
          (create_entry-Sound t q.name (Handlers.integration_entry_from_request "" q)))

  update_entry-Sound :
      (t : Reading) (id : String) (r : Result IntegrationEntry)
      → Sound (Handlers.update_entry t id st r).1
  update_entry-Sound t id (err x) = sound
  update_entry-Sound t id (ok i) =
      answered-Sound 200 (λ x. 500) _
        (update-Fits st.projects.entries t.now id i st.integrations sound)

  update_body-Sound :
      (t : Reading) (id : String) (old : IntegrationEntry) (body : Option IntegrationRequest)
      → Sound (Handlers.update_decoded t id old st body).1
  update_body-Sound t id old none = sound
  update_body-Sound t id old (some q) =
      update_entry-Sound t id
        (Handlers.integration_entry_from_request id (Handlers.completed old q))

  update_lookup-Sound :
      (t : Reading) (id : String) (body : Option IntegrationRequest) (r : Result IntegrationEntry)
      → Sound (Handlers.update_found t id body st r).1
  update_lookup-Sound t id body (err x) = sound
  update_lookup-Sound t id body (ok old) = update_body-Sound t id old body

-- While projects are managed, every request that creates, changes or deletes a project or an
-- integration, whatever it carries, whatever is answered and whether or not the file is written,
-- leaves each integration under its id and no project with an integration that there is not.
pub serve-Sound :
    (u : Setup) (c : Change) (st : Settings)
    → u.manages_projects ≡ true
    → Sound st
    → Sound (serve u c st).1
unfolding handle_create_settings_repo handle_update_settings_repo handle_delete_settings_repo
    handle_create_settings_integration handle_update_settings_integration
    handle_delete_settings_integration
serve-Sound u (creates_repo t body) st m s =
    if-Sound u.manages_projects (create_decoded u t st body) (503, st)
      (create_decoded-Sound u st s t body) s
serve-Sound u (updates_repo t name body) st m s =
    if-Sound (is_some (get_project name u.configured)) (403, st) _ s
      (if-Sound (not u.manages_projects) (503, st) _ s
        (update_found-Sound u st s t name body (Projects.get name st.projects)))
serve-Sound u (deletes_repo name) st m s =
    if-Sound (is_some (get_project name u.configured)) (403, st) _ s
      (if-Sound (not u.manages_projects) (503, st) _ s
        (after_delete-Sound u st s name _
          (delete-Referring st.integrations.entries name st.projects s.1)))
serve-Sound u (creates_integration t body) st m s =
    if-Sound u.manages_integrations (Handlers.create_decoded t st body) (503, st)
      (create_body-Sound u st s t body) s
serve-Sound u (updates_integration t id body) st m s =
    if-Sound u.manages_integrations _ (503, st)
      (update_lookup-Sound u st s t id body (Stored.get id st.integrations)) s
serve-Sound u (deletes_integration id) st m s = elim (Bool-cases u.manages_integrations) [
  | inr b ↦ rw b s
  | inl b ↦ elim (Bool-cases (is_referenced id (Projects.list st.projects))) [
    | inl h ↦ rw (b, m, h) s
    | inr h ↦
        rw (b, m, h)
          (answered-Sound u st s 200 Handlers.missing_status _
            (delete-Fits id st.projects st.integrations h s))
  ]
]

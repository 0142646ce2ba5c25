-- ===== src/Api/Settings/Schedules/Names.antt =====
-- The names of the entries that internal/api/handlers_settings.go stores.
use driftd.Prelude.{
  ℕ, String, Bool, true, false, Option, none, some, ◌==◌, ◌≡◌, refl, sym, ap, ◌∙◌, lookup, is_some,
  ◌&&◌, not, if◌then◌else◌, Result, ok, err, project_not_found, get_or, trim_space, ◌||◌,
}
use driftd.Config.{get_project}
use driftd.Config.Projects.{is_valid_project_name}
use driftd.Secrets.Files.{Keyed, Keyed-lookup}
use driftd.Secrets.Projects.{
  ProjectStore, ProjectEntry, ProjectCredentials, key_of, without_credentials,
}
use driftd.Secrets.Projects as Projects
use driftd.Secrets.Integrations.{IntegrationEntry}
use driftd.Api.Settings.{ProjectRequest, Setup, Settings, get_integration}
use driftd.Api.Settings.Requested.{
  created_parts, updated_parts, requested_entry, with_integration, integrated, revised_entry,
  chosen_integration, chosen_auth,
}
use driftd.Api.Settings.Repos.{create_refusal}
use driftd.Api.Settings.Access.{
  Every, if-Every, with_credentials-Every, renewed-Every, kept_access-Every,
}

-- The entry of a request has the name that it is for.
abbrev pub Named : String → ProjectEntry → Type 0
Named name e = e.name ≡ name

pub created-Named :
    (u : Setup) (q : ProjectRequest) (st : Settings) → Every (Named q.name) (created_parts u q st)
created-Named u q st =
    let id = trim_space (get_or q.integration_id "") in
    if-Every (Named q.name) (id == "") _ _
      (with_credentials-Every (Named q.name) (requested_entry q) q (λ g. refl))
      (referring (get_integration u id st))
  where
    referring :
        (r : Result IntegrationEntry)
        → Every (Named q.name) (with_integration (requested_entry q) r)
    referring (err x) = tt
    referring (ok i) = refl

pub updated-Named :
    (u : Setup) (old : ProjectEntry) (q : ProjectRequest) (st : Settings)
    → Every (Named old.name) (updated_parts u old q st)
updated-Named u old q st =
    let id = chosen_integration old q in
    let e = revised_entry old q id (chosen_auth old q) in
    if-Every (Named old.name) (not (id == "")) _ _ (referring e refl (get_integration u id st)) (
      if-Every (Named old.name)
        (not (q.github_private_key == "")
          || not (q.ssh_private_key == "")
          || not (q.https_token == ""))
        _ _ (renewed-Every (Named old.name) e q (λ g. refl))
        (kept_access-Every (Named old.name) old e q (λ g. refl)))
  where
    referring :
        (e : ProjectEntry)
        → e.name ≡ old.name
        → (r : Result IntegrationEntry) → Every (Named old.name) (integrated e r)
    referring e h (err x) = tt
    referring e h (ok i) = h

allowed : (b : Bool) (x : ℕ) (o : Option ℕ) → (if b then some x else o) ≡ none → o ≡ none
allowed true x o h = cc
allowed false x o h = h

unset : {A : Type 0} (o : Option A) (x : ℕ) → (if is_some o then some x else none) ≡ none → o ≡ none
unset none x h = refl
unset (some a) x h = cc

-- A request that is let on is for a name that is not configured.
pub create_refusal-free :
    (u : Setup) (q : ProjectRequest)
    → create_refusal u q ≡ none
    → get_project q.name u.configured ≡ none
create_refusal-free u q h = unset (get_project q.name u.configured) 409 (
    allowed (not (is_valid_project_name q.name)) 400 _ (
      allowed (q.auth_type == "" && trim_space (get_or q.integration_id "") == "") 400 _
        (allowed (q.url == "") 400 _ (allowed (q.name == "") 400 _ h))))

-- The entry of Get has the name that it is got by.
pub get-name :
    (s : ProjectStore) (name : String) (e : ProjectEntry)
    → Keyed key_of s.entries
    → Projects.get name s ≡ ok e
    → e.name ≡ name
unfolding Projects.get
get-name s name e keyed h = go (lookup name s.entries) refl h
  where
    go :
        (o : Option ProjectEntry)
        → lookup name s.entries ≡ o
        → (elim o [ none ↦ err project_not_found | some x ↦ ok (without_credentials x) ]) ≡ ok e
        → e.name ≡ name
    go none l h = cc
    go (some x) l h = sym (ap key_of (same h)) ∙ Keyed-lookup key_of s.entries name x keyed l
      where
        same : ok (without_credentials x) ≡ ok e → without_credentials x ≡ e
        same y = cc

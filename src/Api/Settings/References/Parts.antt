-- ===== src/Api/Settings/References/Parts.antt =====
-- The entries that internal/api/handlers_settings.go makes of a request: each refers to an integration that there is.
use driftd.Prelude.{
  String, Bool, true, false, Option, none, some, ◌==◌, ◌≡◌, refl, ap, ◌∙◌, Map, lookup, ◌||◌, not,
  if◌then◌else◌, Result, ok, err, get_or, trim_space, rejected,
}
use driftd.Secrets.Files.{Keyed, Keyed-lookup}
use driftd.Secrets.Projects.{ProjectEntry}
use driftd.Secrets.Integrations.{IntegrationEntry, id_of}
use driftd.Secrets.Integrations as Stored
use driftd.Api.Settings.{ProjectRequest, Setup, Settings, get_integration}
use driftd.Api.Settings.Requested.{
  Parts, requested_entry, with_integration, created_parts, revised_entry, chosen_integration,
  chosen_auth, integrated, updated_parts,
}
use driftd.Api.Settings.Access.{
  Every, if-Every, split-Every, with_credentials-Every, renewed-Every, kept_access-Every,
}
use driftd.Api.Settings.References.{refers_well}

-- The entry refers to an integration that there is.
abbrev pub Good : Map IntegrationEntry → Parts → Type 0
Good ints = Every (λ e. refers_well ints e ≡ true)

-- An integration that is found stands in the store, under the id that it is looked for by.
get_integration-has :
    (u : Setup) (id : String) (st : Settings) (i : IntegrationEntry)
    → get_integration u id st ≡ ok i
    → lookup id st.integrations.entries ≡ some i
unfolding get_integration Stored.get
get_integration-has u id st i h =
    go u.manages_integrations (lookup id st.integrations.entries) refl h
  where
    go :
        (b : Bool) (o : Option IntegrationEntry)
        → lookup id st.integrations.entries ≡ o
        → (if b then Stored.found o else err rejected) ≡ ok i
        → lookup id st.integrations.entries ≡ some i
    go false o e h = cc
    go true none e h = cc
    go true (some x) e h = e ∙ cc

refers_well-has :
    (ints : Map IntegrationEntry) (e : ProjectEntry) (i : IntegrationEntry)
    → lookup e.integration_id ints ≡ some i
    → refers_well ints e ≡ true
refers_well-has ints e i h = rw h (at (e.integration_id == ""))
  where
    at : (b : Bool) → (b || true) ≡ true
    at true = refl
    at false = refl

module _ (u : Setup) (st : Settings) (keyed : Keyed id_of st.integrations.entries) where
  abbrev Well : ProjectEntry → Type 0
  Well e = refers_well st.integrations.entries e ≡ true

  with_integration-Good :
      (e : ProjectEntry) (id : String) (r : Result IntegrationEntry)
      → get_integration u id st ≡ r
      → Good st.integrations.entries (with_integration e r)
  with_integration-Good e id (err x) h = tt
  with_integration-Good e id (ok i) h =
      let at = get_integration-has u id st i h in
      refers_well-has st.integrations.entries (record e { integration_id = i.id }) i
        (ap (λ k. lookup k st.integrations.entries)
            (Keyed-lookup id_of st.integrations.entries id i keyed at)
          ∙ at)

  integrated-Good :
      (e : ProjectEntry) (r : Result IntegrationEntry)
      → get_integration u e.integration_id st ≡ r
      → Good st.integrations.entries (integrated e r)
  integrated-Good e (err x) h = tt
  integrated-Good e (ok i) h =
      refers_well-has st.integrations.entries e i (get_integration-has u e.integration_id st i h)

  pub created_parts-Good :
      (q : ProjectRequest) → Good st.integrations.entries (created_parts u q st)
  created_parts-Good q =
      let id = trim_space (get_or q.integration_id "") in
      if-Every Well (id == "") _ _ (with_credentials-Every Well (requested_entry q) q (λ g. refl))
        (with_integration-Good (requested_entry q) id (get_integration u id st) refl)

  pub updated_parts-Good :
      (old : ProjectEntry) (q : ProjectRequest)
      → Good st.integrations.entries (updated_parts u old q st)
  updated_parts-Good old q =
      let id = chosen_integration old q in
      let e = revised_entry old q id (chosen_auth old q) in
      split-Every Well (id == "") _ _ (λ b. integrated-Good e (get_integration u id st) refl)
        (λ b.
          let w : refers_well st.integrations.entries e ≡ true = rw b refl in
          if-Every Well
            (not (q.github_private_key == "")
              || not (q.ssh_private_key == "")
              || not (q.https_token == ""))
            _ _ (renewed-Every Well e q (λ g. w)) (kept_access-Every Well old e q (λ g. w)))

-- ===== src/Api/Settings/Access.antt =====
-- The entries that internal/api/handlers_settings.go makes of a request and the access it asks for: what holds of
-- an entry whatever its git section says holds of the entry that comes out.
use driftd.Prelude.{
  Bool, true, false, none, some, ◌==◌, ◌≡◌, refl, ◌||◌, ◌&&◌, not, nat_eq, if◌then◌else◌,
  Bool-cases, inl, inr,
}
use driftd.Secrets.Projects.{ProjectEntry, ProjectGitConfig}
use driftd.Api.Settings.{ProjectRequest}
use driftd.Api.Settings.Requested.{Parts, with_credentials, renewed, kept_access}

-- The entry has the property, if there is one.
abbrev pub Every : (ProjectEntry → Type 0) → Parts → Type 0
Every P none = Unit
Every P (some (e, creds)) = P e

module _ (P : ProjectEntry → Type 0) where
  pub if-Every : (b : Bool) (p q : Parts) → Every P p → Every P q → Every P (if b then p else q)
  if-Every true p q g k = g
  if-Every false p q g k = k

  pub split-Every :
      (b : Bool) (p q : Parts)
      → ((b ≡ false) → Every P p)
      → ((b ≡ true) → Every P q)
      → Every P (if not b then p else q)
  split-Every true p q g k = k refl
  split-Every false p q g k = g refl

  pub with_credentials-Every :
      (e : ProjectEntry) (q : ProjectRequest)
      → ((g : ProjectGitConfig) → P (record e { git = g }))
      → Every P (with_credentials e q)
  with_credentials-Every e q w =
      if-Every (q.auth_type == "github_app") _ _
        (if-Every (nat_eq q.github_app_id 0 || nat_eq q.github_installation_id 0) _ _ tt
          (if-Every (q.github_private_key == "") _ _ tt (w _)))
        (if-Every (q.auth_type == "ssh") _ _
          (if-Every (q.ssh_private_key == "" || q.ssh_known_hosts == "") _ _ tt (w _))
          (if-Every (q.auth_type == "https") _ _ (w _) tt))

  pub renewed-Every :
      (e : ProjectEntry) (q : ProjectRequest)
      → ((g : ProjectGitConfig) → P (record e { git = g }))
      → Every P (renewed e q)
  renewed-Every e q w =
      if-Every (e.git.kind == "github_app") _ _
        (if-Every (nat_eq q.github_app_id 0 || nat_eq q.github_installation_id 0) _ _ tt (w _))
        (if-Every (e.git.kind == "ssh") _ _ (if-Every (q.ssh_known_hosts == "") _ _ tt (w _))
          (if-Every (e.git.kind == "https") _ _ (w e.git) (w e.git)))

  pub kept_access-Every :
      (old e : ProjectEntry) (q : ProjectRequest)
      → ((g : ProjectGitConfig) → P (record e { git = g }))
      → Every P (kept_access old e q)
  kept_access-Every old e q w =
      let changed =
        (not (e.git.kind == "") && not (e.git.kind == old.git.kind))
        || not (e.integration_id == old.integration_id) in
      elim (Bool-cases changed) [
        | inl b ↦ rw b tt
        | inr b ↦ elim (Bool-cases (e.git.kind == "github_app")) [
          | inl c ↦ rw (b, c) (w _)
          | inr c ↦ rw (b, c) (w _)
        ]
      ]

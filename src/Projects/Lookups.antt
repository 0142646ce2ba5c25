-- ===== src/Projects/Lookups.antt =====
-- What the list of all projects (internal/projects/provider.go) and the lookup of one have to do with each other.
use driftd.Prelude.{
  String, Bool, false, Option, none, some, List, [], ◌∷◌, ◌++◌, ◌==◌, ◌≡◌, refl, sym, ap, ◌∙◌,
  subst, is_some, Result, ok, err, Map, lookup, All, Bool-cases, inl, inr, eq_iff,
}
use driftd.Config.{ProjectConfig, GitAuthConfig, get_project}
use driftd.Secrets.Projects.{
  ProjectStore, ProjectEntry, ProjectCredentials, key_of, get_with_credentials, with_lookup,
  with_credentials, credentials_of, list,
}
use driftd.Secrets.Files.{Keyed}
use driftd.Secrets.Integrations.{IntegrationEntry}
use driftd.Projects.Conversion.{
  plain_config, with_git, project_config_from_entry, git_config_from_integration,
  git_config_from_entry,
}
use driftd.Projects.Provider.{
  CombinedProvider, converted, from_store, stored_config, configured_or, provider_get, cons_config,
  stored_configs, listed, list_with, provider_list, lookup_integration,
}

-- An entry stands under its name.
Keyed-name :
    (name : String) (e : ProjectEntry) (m : Map ProjectEntry)
    → Keyed key_of m
    → lookup name m ≡ some e
    → e.name ≡ name
Keyed-name name e [] k h = cc
Keyed-name name e ((j, v) ∷ m) (n, a, k) h = elim (Bool-cases (j == name)) [
  | inl b ↦
      let same : some v ≡ some e = rw b at h in
      let it : v ≡ e = cc in ap key_of (sym it) ∙ n ∙ (eq_iff j name).0 b
  | inr b ↦ Keyed-name name e m k (rw b at h)
]

-- A result that, if it is one, has the name.
abbrev Named : String → Result ProjectConfig → Type 0
Named name x = (c : ProjectConfig) → x ≡ ok c → c.name ≡ name

with_git-Named :
    (e : ProjectEntry) (x : Result GitAuthConfig) → Named e.name (with_git (plain_config e) x)
with_git-Named e (err x) c h = cc
with_git-Named e (ok g) c h =
    let same : record (plain_config e) { git = some g } ≡ c = cc in ap (λ d. d.name) (sym same)

entry-Named :
    (w : String → Bool) (dir : String) (e : ProjectEntry) (creds : ProjectCredentials)
    (i : Option IntegrationEntry)
    → Named e.name (project_config_from_entry w dir e creds i)
unfolding project_config_from_entry
entry-Named w dir e creds (some i) = with_git-Named e (git_config_from_integration i)
entry-Named w dir e creds none = elim (Bool-cases (e.git.kind == "")) [
  | inl b ↦ rw b (λ c h. let same : plain_config e ≡ c = cc in ap (λ d. d.name) (sym same))
  | inr b ↦ rw b (with_git-Named e (git_config_from_entry w dir e creds))
]

converted-Named :
    (p : CombinedProvider) (e : ProjectEntry) (creds : ProjectCredentials)
    (i : Result (Option IntegrationEntry))
    → Named e.name (converted p e creds i)
converted-Named p e creds (err x) c h = cc
converted-Named p e creds (ok i) c h = entry-Named p.writable p.data_dir e creds i c h

stored-Named :
    (p : CombinedProvider) (s : ProjectStore) (name : String)
    → Keyed key_of s.entries
    → Named name (stored_config p s name)
unfolding get_with_credentials
stored-Named p s name k = go (lookup name s.entries) refl
  where
    opened :
        (e : ProjectEntry) (x : Result ProjectCredentials)
        → e.name ≡ name
        → Named name (from_store p (with_credentials e x))
    opened e (err x) n c h = cc
    opened e (ok creds) n c h =
        converted-Named p (record e { encrypted_credentials = "" }) creds
          (lookup_integration p e.integration_id) c h
        ∙ n

    go :
        (o : Option ProjectEntry)
        → lookup name s.entries ≡ o
        → Named name (from_store p (with_lookup p.cipher o))
    go none h c x = cc
    go (some e) h c x = opened e (credentials_of p.cipher e) (Keyed-name name e s.entries k h) c x

-- The lookup of the project's name gives the project.
abbrev Found : CombinedProvider → ProjectConfig → Type 0
Found p q = provider_get p q.name ≡ ok q

configured-Found :
    (p : CombinedProvider) (ps : List ProjectConfig)
    → All (λ c. get_project c.name p.projects ≡ some c) ps
    → All (Found p) ps
unfolding provider_get
configured-Found p [] h = tt
configured-Found p (c ∷ ps) (a, h) =
    (ap (configured_or p c.name p.store) a, configured-Found p ps h)

abbrev AllFound : CombinedProvider → Result (List ProjectConfig) → Type 0
AllFound p (err e) = Unit
AllFound p (ok cs) = All (Found p) cs

stored-Found :
    (p : CombinedProvider) (s : ProjectStore) (es : List ProjectEntry)
    → p.store ≡ some s
    → Keyed key_of s.entries
    → AllFound p (stored_configs p s es)
unfolding provider_get
stored-Found p s [] h k = tt
stored-Found p s (e ∷ es) h k = elim (Bool-cases (is_some (get_project e.name p.projects))) [
  | inl b ↦ rw b (stored-Found p s es h k)
  | inr b ↦ rw b (
      go (stored_config p s e.name) (stored_configs p s es) refl
        (absent (get_project e.name p.projects) b) (stored-Found p s es h k))
]
  where
    absent : (o : Option ProjectConfig) → is_some o ≡ false → o ≡ none
    absent none b = refl
    absent (some c) b = cc

    go :
        (x : Result ProjectConfig) (rest : Result (List ProjectConfig))
        → stored_config p s e.name ≡ x
        → get_project e.name p.projects ≡ none
        → AllFound p rest
        → AllFound p (cons_config x rest)
    go (err x) rest a n f = tt
    go (ok c) (err y) a n f = tt
    go (ok c) (ok cs) a n f =
        let name : c.name ≡ e.name = stored-Named p s e.name k c a in
        (
          ap (λ x. configured_or p x p.store (get_project x p.projects)) name
              ∙ ap (configured_or p e.name p.store) n
              ∙ ap (λ o. configured_or p e.name o none) h
              ∙ a,
          f,
        )

All-append :
    (P : ProjectConfig → Type 0) (xs ys : List ProjectConfig)
    → All P xs
    → All P ys
    → All P (xs ++ ys)
All-append P [] ys h k = k
All-append P (x ∷ xs) ys (a, h) k = (a, All-append P xs ys h k)

-- Every project that List answers, configured or stored, is the one that Get answers for its
-- name: so a stored project never hides a configured one. The configured projects are to have names of
-- their own, as a configuration that was accepted has, and the stored ones to stand under theirs.
pub provider_list-found :
    (p : CombinedProvider) (s : ProjectStore) (qs : List ProjectConfig)
    → p.store ≡ some s
    → Keyed key_of s.entries
    → All (λ c. get_project c.name p.projects ≡ some c) p.projects
    → provider_list p ≡ ok qs
    → All (λ q. provider_get p q.name ≡ ok q) qs
unfolding provider_list
provider_list-found p s qs h k c e =
    go (stored_configs p s (list s)) (stored-Found p s (list s) h k) (sym (ap (list_with p) h) ∙ e)
  where
    go :
        (x : Result (List ProjectConfig))
        → AllFound p x
        → listed p.projects x ≡ ok qs
        → All (Found p) qs
    go (err x) f e = cc
    go (ok ds) f e =
        let same : p.projects ++ ds ≡ qs = cc in
        subst (All (Found p)) same
          (All-append (Found p) p.projects ds (configured-Found p p.projects c) f)

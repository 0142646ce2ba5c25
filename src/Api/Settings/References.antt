-- ===== src/Api/Settings/References.antt =====
-- The integrations that the projects refer to, as internal/api/handlers_settings.go changes both.
pub mod Parts
pub mod Entries
pub mod Kept
use driftd.Prelude.{
  ℕ, String, Bool, true, false, Option, none, some, List, [], ◌∷◌, ◌==◌, ◌≡◌, refl, sym, ap, ◌∙◌,
  subst, Map, lookup, put, erase, has, lookup-put, lookup-erase, is_some, ◌||◌, not, nat_eq,
  if◌then◌else◌, Result, ok, err, Error, get_or, trim_space, Bool-cases, inl, inr, arith, eq_iff,
}
use driftd.Config.{get_project}
use driftd.Secrets.Files.{Store, Keyed, save, store, put-Keyed, erase-Keyed, entries-store}
use driftd.Secrets.Projects.{
  ProjectStore, ProjectEntry, ProjectCredentials, key_of, sealed, added, updated, renamed,
  store_sealed, update_existing,
}
use driftd.Secrets.Projects as Projects
use driftd.Secrets.Integrations.{IntegrationEntry, IntegrationStore, id_of}
use driftd.Secrets.Integrations as Stored
use driftd.Api.Settings.{
  ProjectRequest, IntegrationRequest, Setup, Settings, Reading, get_integration,
}

-- The project refers to no integration, or to one that there is.
abbrev pub refers_well : Map IntegrationEntry → ProjectEntry → Bool
refers_well ints e = e.integration_id == "" || has e.integration_id ints

abbrev pub Referring : Map IntegrationEntry → Map ProjectEntry → Type 0
Referring ints ps =
    (k : String) (e : ProjectEntry) → lookup k ps ≡ some e → refers_well ints e ≡ true

put-Referring :
    (ints : Map IntegrationEntry) (n : String) (e : ProjectEntry) (ps : Map ProjectEntry)
    → refers_well ints e ≡ true
    → Referring ints ps
    → Referring ints (put n e ps)
put-Referring ints n e ps w r k x h = elim (Bool-cases (n == k)) [
  | inl b ↦
      subst (λ y. refers_well ints y ≡ true) (same (sym (rw (lookup-put n e k ps, b) refl) ∙ h)) w
  | inr b ↦ r k x (sym (rw (lookup-put n e k ps, b) refl) ∙ h)
]
  where
    same : some e ≡ some x → e ≡ x
    same y = cc

erase-Referring :
    (ints : Map IntegrationEntry) (n : String) (ps : Map ProjectEntry)
    → Referring ints ps
    → Referring ints (erase n ps)
erase-Referring ints n ps r k x h = elim (Bool-cases (n == k)) [
  | inl b ↦ absurd (clash (sym (rw (lookup-erase n k ps, b) refl) ∙ h))
  | inr b ↦ r k x (sym (rw (lookup-erase n k ps, b) refl) ∙ h)
]
  where
    clash : none ≡ some x → ⊥
    clash y = cc

-- With more integrations the references stay good.
pub more-Referring :
    (ints more : Map IntegrationEntry) (ps : Map ProjectEntry)
    → ((e : ProjectEntry) → has e.integration_id ints ≡ true → has e.integration_id more ≡ true)
    → Referring ints ps
    → Referring more ps
more-Referring ints more ps g r k e h = elim (Bool-cases (e.integration_id == "")) [
  | inl b ↦ rw b refl
  | inr b ↦
      let old : has e.integration_id ints ≡ true = sym (rw b refl) ∙ r k e h in rw (b, g e old) refl
]

store-Referring :
    (ints : Map IntegrationEntry) (m : Map ProjectEntry) (s : ProjectStore)
    → Referring ints m
    → Referring ints (store m s).1.entries
store-Referring ints m s r = subst (Referring ints) (sym (entries-store key_of m s)) r

store_sealed-Referring :
    (ints : Map IntegrationEntry) (x : Result String) (f : String → Map ProjectEntry)
    (s : ProjectStore)
    → Referring ints s.entries
    → ((blob : String) → Referring ints (f blob))
    → Referring ints (store_sealed x f s).1.entries
store_sealed-Referring ints (err x) f s r g = r
store_sealed-Referring ints (ok blob) f s r g = store-Referring ints (f blob) s (g blob)

-- The store operations that the handlers call.
module _ (u : Setup) (ints : Map IntegrationEntry) (nonce now : ℕ) (e : ProjectEntry)
    (creds : Option ProjectCredentials) (w : refers_well ints e ≡ true) where
  pub add-Referring :
      (s : ProjectStore)
      → Referring ints s.entries
      → Referring ints (Projects.add u.cipher nonce now e creds s).1.entries
  unfolding Projects.add
  add-Referring s r = elim (Bool-cases (has e.name s.entries)) [
    | inl b ↦ rw b r
    | inr b ↦ rw b (
        store_sealed-Referring ints (sealed u.cipher nonce creds e.encrypted_credentials) _ s r
          (λ blob. put-Referring ints e.name (added e now blob) s.entries w r))
  ]

  update_existing-Referring :
      (name : String) (o : Option ProjectEntry) (s : ProjectStore)
      → Referring ints s.entries
      → Referring ints (update_existing u.cipher nonce now name e creds o s).1.entries
  update_existing-Referring name none s r = r
  update_existing-Referring name (some x) s r =
      store_sealed-Referring ints (sealed u.cipher nonce creds x.encrypted_credentials) _ s r
        (λ blob. put-Referring ints e.name (updated x e now blob) _ w (kept (name == e.name)))
    where
      kept : (b : Bool) → Referring ints (if b then s.entries else erase name s.entries)
      kept true = r
      kept false = erase-Referring ints name s.entries r

  pub update-Referring :
      (name : String) (s : ProjectStore)
      → Referring ints s.entries
      → Referring ints (Projects.update u.cipher nonce now name e creds s).1.entries
  unfolding Projects.update
  update-Referring name s r = update_existing-Referring name (lookup name s.entries) s r

pub delete-Referring :
    (ints : Map IntegrationEntry) (name : String) (s : ProjectStore)
    → Referring ints s.entries
    → Referring ints (Projects.delete name s).1.entries
unfolding Projects.delete
delete-Referring ints name s r = elim (Bool-cases (has name s.entries)) [
  | inl b ↦
      rw b (store-Referring ints (erase name s.entries) s (erase-Referring ints name s.entries r))
  | inr b ↦ rw b r
]

-- The integrations stand under their ids, and every project refers to none or to one of them.
abbrev pub Sound : Settings → Type 0
Sound st =
    Keyed id_of st.integrations.entries × Referring st.integrations.entries st.projects.entries

-- ===== src/Api/Settings/Schedules.antt =====
-- The cron jobs of the projects, as internal/api/handlers_settings.go tells the scheduler of a change.
pub mod Followed
pub mod Names
pub mod Answered
use driftd.Prelude.{
  ℕ, String, Bool, true, false, Option, none, some, List, [], ◌∷◌, ◌==◌, ◌≡◌, refl, sym, ap, ◌∙◌,
  subst, Map, lookup, put, erase, has, lookup-put, lookup-erase, is_some, ◌&&◌, not, if◌then◌else◌,
  Result, ok, err, Error, external, Bool-cases, inl, inr, arith, eq_iff, eq_refl, ◌⊎◌,
}
use driftd.Config.{ProjectConfig, get_project}
use driftd.Secrets.Files.{Store, Keyed, save, store, entries-store}
use driftd.Secrets.Projects.{
  ProjectStore, ProjectEntry, ProjectCredentials, Cipher, key_of, sealed, added, updated, renamed,
  store_sealed, update_existing,
}
use driftd.Secrets.Projects as Projects
use driftd.Scheduler.{Scheduler, Job}
use driftd.Scheduler.Jobs.{InStep, schedules_of}
use driftd.Api.Settings.{Setup, Settings}

-- The jobs of a project with the schedule.
abbrev pub jobs_for : (String → Bool) → String → List String
jobs_for parses schedule = if not (schedule == "") && parses schedule then schedule ∷ [] else []

abbrev pub schedule_in : Option ProjectEntry → String
schedule_in none = ""
schedule_in (some e) = e.schedule

-- The schedule of a name: that of the configured project, or of the stored one.
abbrev pub schedule_or : Option ProjectConfig → Option ProjectEntry → String
schedule_or (some p) o = p.schedule
schedule_or none o = schedule_in o

-- Every name has just the job of its project's schedule, if that is one that cron parses.
abbrev pub Following : Setup → Settings → Type 0
Following u st =
    Keyed key_of st.projects.entries
    × InStep st.scheduler
    × ((k : String)
        → schedules_of k st.scheduler.jobs
          ≡ jobs_for u.parses
              (schedule_or (get_project k u.configured) (lookup k st.projects.entries)))

-- A map in which one name has got a schedule and the others have theirs.
abbrev pub Rescheduled : String → String → Map ProjectEntry → Map ProjectEntry → Type 0
Rescheduled name schedule old new =
    (k : String)
    → schedule_in (lookup k new) ≡ (if name == k then schedule else schedule_in (lookup k old))

-- How an operation of the store ends: done, refused with the store as it was, or unwritten.
abbrev pub Ends :
    ProjectStore → (Map ProjectEntry → Type 0) → Result {0} Unit × ProjectStore → Type 0
Ends s Done (ok tt, ps) = Done ps.entries
Ends s Done (err x, ps) = (ps ≡ s) ⊎ (x ≡ external)

module _ (s : ProjectStore) (Done : Map ProjectEntry → Type 0) where
  store-Ends : (m : Map ProjectEntry) → Done m → Ends s Done (store m s)
  unfolding save
  store-Ends m d = go s.writes
    where
      go : (ws : List Bool) → Ends s Done (save (record s { entries = m; writes = ws }))
      go [] = d
      go (true ∷ ws) = d
      go (false ∷ ws) = inr refl

  store_sealed-Ends :
      (x : Result String) (f : String → Map ProjectEntry)
      → ((blob : String) → Done (f blob))
      → Ends s Done (store_sealed x f s)
  store_sealed-Ends (err x) f d = inl refl
  store_sealed-Ends (ok blob) f d = store-Ends (f blob) (d blob)

put-Rescheduled :
    (name : String) (e : ProjectEntry) (m : Map ProjectEntry)
    → Rescheduled name e.schedule m (put name e m)
put-Rescheduled name e m k = rw (lookup-put name e k m) (at (name == k))
  where
    at :
        (b : Bool)
        → schedule_in (if b then some e else lookup k m)
          ≡ (if b then e.schedule else schedule_in (lookup k m))
    at true = refl
    at false = refl

erase-Rescheduled : (name : String) (m : Map ProjectEntry) → Rescheduled name "" m (erase name m)
erase-Rescheduled name m k = rw (lookup-erase name k m) (at (name == k))
  where
    at :
        (b : Bool)
        → schedule_in (if b then none else lookup k m)
          ≡ (if b then "" else schedule_in (lookup k m))
    at true = refl
    at false = refl

pub add-Ends :
    (c : Cipher) (nonce now : ℕ) (e : ProjectEntry) (creds : Option ProjectCredentials)
    (s : ProjectStore)
    → Ends s
        (λ m. Rescheduled e.name e.schedule s.entries m × (lookup e.name s.entries ≡ none))
        (Projects.add c nonce now e creds s)
unfolding Projects.add
add-Ends c nonce now e creds s = elim (Bool-cases (has e.name s.entries)) [
  | inl b ↦ rw b (inl refl)
  | inr b ↦ rw b (
      store_sealed-Ends s _ (sealed c nonce creds e.encrypted_credentials) _ (λ blob.
        (put-Rescheduled e.name (added e now blob) s.entries, missing (lookup e.name s.entries) b)))
]
  where
    missing : (o : Option ProjectEntry) → is_some o ≡ false → o ≡ none
    missing none h = refl
    missing (some x) h = cc

-- The entry keeps the name under which it stands.
pub update-Ends :
    (c : Cipher) (nonce now : ℕ) (name : String) (e : ProjectEntry)
    (creds : Option ProjectCredentials) (s : ProjectStore)
    → e.name ≡ name
    → Ends s (Rescheduled name e.schedule s.entries) (Projects.update c nonce now name e creds s)
unfolding Projects.update
update-Ends c nonce now name e creds s h = go (lookup name s.entries)
  where
    put-here :
        (x : ProjectEntry) (blob : String)
        → Rescheduled name e.schedule s.entries (renamed name (updated x e now blob) s.entries)
    put-here x blob =
        let same : (name == e.name) ≡ true = ap (λ n. name == n) h ∙ eq_refl name in
        rw same (
          subst
            (λ n. Rescheduled n e.schedule s.entries (put e.name (updated x e now blob) s.entries))
            h (put-Rescheduled e.name (updated x e now blob) s.entries))

    go :
        (o : Option ProjectEntry)
        → Ends s
            (Rescheduled name e.schedule s.entries)
            (update_existing c nonce now name e creds o s)
    go none = inl refl
    go (some x) =
        store_sealed-Ends s (Rescheduled name e.schedule s.entries)
          (sealed c nonce creds x.encrypted_credentials) _ (put-here x)

pub delete-Ends :
    (name : String) (s : ProjectStore)
    → Ends s (Rescheduled name "" s.entries) (Projects.delete name s)
unfolding Projects.delete
delete-Ends name s = elim (Bool-cases (has name s.entries)) [
  | inl b ↦ rw b (
      store-Ends s (Rescheduled name "" s.entries) (erase name s.entries)
        (erase-Rescheduled name s.entries))
  | inr b ↦ rw b (inl refl)
]

-- ===== src/Api/Settings/Schedules/Followed.antt =====
-- What a change of a project leaves of the scheduler, once the store of internal/secrets/repostore.go has ended.
use driftd.Prelude.{
  ℕ, String, Bool, true, false, Option, none, some, [], ◌==◌, ◌≡◌, refl, sym, ap, ◌∙◌, subst,
  lookup, nat_eq, if◌then◌else◌, Result, ok, err, Error, external, Bool-cases, inl, inr, eq_iff,
}
use driftd.Config.{ProjectConfig, get_project}
use driftd.Secrets.Files.{Keyed}
use driftd.Secrets.Projects.{ProjectStore, ProjectEntry, key_of}
use driftd.Scheduler.{Scheduler, on_project_added, on_project_updated, on_project_deleted}
use driftd.Scheduler.Jobs.{InStep, schedules_of, on_project_updated-jobs}
use driftd.Scheduler.Steps.{react, react-InStep}
use driftd.Scheduler.Steps as Steps
use driftd.Api.Settings.{Setup, Settings}
use driftd.Api.Settings.Repos.{after_add, after_update, after_delete, add_status, missing_status}
use driftd.Api.Settings.Schedules.{jobs_for, schedule_in, schedule_or, Following, Rescheduled, Ends}

-- A request is not answered with 500.
abbrev pub Served : ℕ × Settings → Type 0
Served a = nat_eq a.0 500 ≡ false

chosen :
    (g : Option ProjectConfig) (o p : Option ProjectEntry)
    → schedule_in o ≡ schedule_in p
    → schedule_or g o ≡ schedule_or g p
chosen none o p h = h
chosen (some c) o p h = refl

then_case : {A : Type 0} {x : A} (b : Bool) (y z : A) → x ≡ (if b then y else z) → b ≡ true → x ≡ y
then_case b y z e t = e ∙ rw t refl

else_case : {A : Type 0} {x : A} (b : Bool) (y z : A) → x ≡ (if b then y else z) → b ≡ false → x ≡ z
else_case b y z e t = e ∙ rw t refl

-- Both callbacks do to a project what its update does.
added-updated :
    (parses : String → Bool) (name schedule : String) (s : Scheduler)
    → (schedule == "") ≡ false
    → on_project_added parses name schedule s ≡ on_project_updated parses name schedule s
unfolding on_project_added on_project_updated
added-updated parses name schedule s b = rw b refl

deleted-updated :
    (parses : String → Bool) (name : String) (s : Scheduler)
    → on_project_deleted name s ≡ on_project_updated parses name "" s
unfolding on_project_deleted on_project_updated
deleted-updated parses name s = refl

module _ (u : Setup) (st : Settings) (follows : u.follows ≡ true) (f : Following u st) where
  -- One name gets another schedule in both.
  moved :
      (name schedule : String) (ps : ProjectStore) (sch : Scheduler)
      → get_project name u.configured ≡ none
      → Keyed key_of ps.entries
      → InStep sch
      → Rescheduled name schedule st.projects.entries ps.entries
      → ((k : String)
          → schedules_of k sch.jobs
            ≡ (if name == k then jobs_for u.parses schedule else schedules_of k st.scheduler.jobs))
      → Following u (record st { projects = ps; scheduler = sch })
  moved name schedule ps sch free keyed i r jobs = (
    keyed,
    i,
    λ k.
        let wanted = jobs_for u.parses schedule in
        let was = schedule_in (lookup k st.projects.entries) in
        let config = get_project k u.configured in
        elim (Bool-cases (name == k)) [
          | inl b ↦
              let free_here : config ≡ none =
                subst (λ n. get_project n u.configured ≡ none) ((eq_iff name k).0 b) free in
              then_case (name == k) wanted (schedules_of k st.scheduler.jobs) (jobs k) b
              ∙ ap (jobs_for u.parses) (sym (then_case (name == k) schedule was (r k) b))
              ∙ ap (λ g. jobs_for u.parses (schedule_or g (lookup k ps.entries))) (sym free_here)
          | inr b ↦
              else_case (name == k) wanted (schedules_of k st.scheduler.jobs) (jobs k) b
              ∙ f.2 k
              ∙ ap (jobs_for u.parses) (
                  chosen config (lookup k st.projects.entries) (lookup k ps.entries)
                    (sym (else_case (name == k) schedule was (r k) b)))
        ],
  )

  -- A name that is neither configured nor stored has no job.
  unknown :
      (name k : String)
      → get_project name u.configured ≡ none
      → lookup name st.projects.entries ≡ none
      → name ≡ k
      → schedules_of k st.scheduler.jobs ≡ []
  unknown name k free missing same =
      f.2 k
      ∙ ap (λ g. jobs_for u.parses (schedule_or g (lookup k st.projects.entries)))
          (subst (λ n. get_project n u.configured ≡ none) same free)
      ∙ ap (λ o. jobs_for u.parses (schedule_in o))
          (subst (λ n. lookup n st.projects.entries ≡ none) same missing)

  pub after_update-Following :
      (name : String) (e : ProjectEntry) (p : Result {0} Unit × ProjectStore)
      → e.name ≡ name
      → get_project name u.configured ≡ none
      → Keyed key_of p.1.entries
      → Ends st.projects (Rescheduled name e.schedule st.projects.entries) p
      → Served (after_update u e st p)
      → Following u (after_update u e st p).1
  after_update-Following name e (err x, ps) h free keyed ends served = cc
  after_update-Following name e (ok tt, ps) h free keyed ends served =
      let sch = on_project_updated u.parses name e.schedule st.scheduler in
      let there : Following u (record st { projects = ps; scheduler = sch }) =
        moved name e.schedule ps sch free keyed
          (react-InStep u.parses (Steps.updated name e.schedule) st.scheduler f.1) ends
          (λ k. on_project_updated-jobs u.parses name e.schedule k st.scheduler f.1) in
      rw follows (
        subst
          (λ n. Following u (record st {
            projects = ps;
            scheduler = on_project_updated u.parses n e.schedule st.scheduler;
          }))
          (sym h) there)

  pub after_add-Following :
      (e : ProjectEntry) (p : Result {0} Unit × ProjectStore)
      → get_project e.name u.configured ≡ none
      → Keyed key_of p.1.entries
      → Ends st.projects
          (λ m.
            Rescheduled e.name e.schedule st.projects.entries m
            × (lookup e.name st.projects.entries ≡ none))
          p
      → Served (after_add u e st p)
      → Following u (after_add u e st p).1
  after_add-Following e (err x, ps) free keyed (inl h) served = rw h f
  after_add-Following e (err x, ps) free keyed (inr h) served = absurd (unserved x h served)
    where
      unserved : (x : Error) → x ≡ external → nat_eq (add_status x) 500 ≡ false → ⊥
      unserved x h s = cc
  after_add-Following e (ok tt, ps) free keyed (r, missing) served =
      elim (Bool-cases (e.schedule == "")) [
        | inl b ↦ rw b (
            moved e.name e.schedule ps st.scheduler free keyed f.1 r (λ k.
              elim (Bool-cases (e.name == k)) [
                | inl c ↦ rw (c, b) (unknown e.name k free missing ((eq_iff e.name k).0 c))
                | inr c ↦ rw c refl
              ]))
        | inr b ↦
            rw (b, follows)
              (moved e.name e.schedule ps (on_project_added u.parses e.name e.schedule st.scheduler)
                free keyed (react-InStep u.parses (Steps.added e.name e.schedule) st.scheduler f.1)
                r
                (λ k.
                  ap (λ s. schedules_of k s.jobs)
                    (added-updated u.parses e.name e.schedule st.scheduler b)
                  ∙ on_project_updated-jobs u.parses e.name e.schedule k st.scheduler f.1))
      ]

  pub after_delete-Following :
      (name : String) (p : Result {0} Unit × ProjectStore)
      → get_project name u.configured ≡ none
      → Keyed key_of p.1.entries
      → Ends st.projects (Rescheduled name "" st.projects.entries) p
      → Served (after_delete u name st p)
      → Following u (after_delete u name st p).1
  after_delete-Following name (err x, ps) free keyed (inl h) served = rw h f
  after_delete-Following name (err x, ps) free keyed (inr h) served = absurd (unserved x h served)
    where
      unserved : (x : Error) → x ≡ external → nat_eq (missing_status x) 500 ≡ false → ⊥
      unserved x h s = cc
  after_delete-Following name (ok tt, ps) free keyed r served = rw follows (
      moved name "" ps (on_project_deleted name st.scheduler) free keyed
        (react-InStep u.parses (Steps.deleted name) st.scheduler f.1) r
        (λ k.
          ap (λ s. schedules_of k s.jobs) (deleted-updated u.parses name st.scheduler)
          ∙ on_project_updated-jobs u.parses name "" k st.scheduler f.1))

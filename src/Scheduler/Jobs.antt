-- ===== src/Scheduler/Jobs.antt =====
-- The jobs of internal/scheduler/scheduler.go, against its map of entries.
use driftd.Prelude.{
  ℕ, ◌<◌, String, Bool, true, false, Option, none, some, List, [], ◌∷◌, ◌==◌, ◌≡◌, refl, sym, ap,
  ◌∙◌, nat_eq, not, if◌then◌else◌, Map, lookup, Bool-cases, inl, inr, arith, eq_iff, eq_false_of_ne,
  ◌&&◌, All,
}
use driftd.Scheduler.{
  Job, Scheduler, remove_job, unschedule_repo, schedule_repo, on_project_updated, drop_entry,
}

-- The schedules under which scans of a project are started.
abbrev pub schedules_of : String → List Job → List String
schedules_of name [] = []
schedules_of name (j ∷ js) =
    let rest = schedules_of name js in if j.project == name then j.schedule ∷ rest else rest

-- The job is the one that the map has for its project.
abbrev pub Known : Map ℕ → Job → Type 0
Known entries j = lookup j.project entries ≡ some j.number

-- Every job is known to the map, no number stands for two projects, and the next one is new.
abbrev pub InStep : Scheduler → Type 0
InStep s =
    All (λ j. lookup j.project s.entries ≡ some j.number) s.jobs
    × ((a b : String) (n : ℕ) → lookup a s.entries ≡ some n → lookup b s.entries ≡ some n → a ≡ b)
    × ((a : String) (n : ℕ) → lookup a s.entries ≡ some n → n < s.next)

pub number_of : {m n : ℕ} → some m ≡ some n → m ≡ n
number_of e = cc

schedules-none :
    (name : String) (entries : Map ℕ) (js : List Job)
    → lookup name entries ≡ none
    → All (Known entries) js
    → schedules_of name js ≡ []
schedules-none name entries [] h k = refl
schedules-none name entries (j ∷ js) h (a, k) =
    let other : (j.project == name) ≡ false =
      eq_false_of_ne j.project name (λ e. clash (sym (ap (λ x. lookup x entries) e) ∙ a) h) in
    rw other (schedules-none name entries js h k)
  where
    clash : {n : ℕ} {o : Option ℕ} → o ≡ some n → o ≡ none → ⊥
    clash a b = cc

schedules-remove :
    (name k : String) (n : ℕ) (entries : Map ℕ) (js : List Job)
    → lookup name entries ≡ some n
    → ((a : String) → lookup a entries ≡ some n → a ≡ name)
    → All (Known entries) js
    → schedules_of k (remove_job n js) ≡ (if name == k then [] else schedules_of k js)
schedules-remove name k n entries [] h u a = ground arith
schedules-remove name k n entries (j ∷ js) h u (a, others) =
    let rest = schedules-remove name k n entries js h u others in
    elim (Bool-cases (nat_eq j.number n)) [
      | inl b ↦
          let number : j.number ≡ n = ground arith in
          let same : j.project ≡ name = u j.project (a ∙ ap some number) in
          let test : (j.project == k) ≡ (name == k) = ap (λ x. x == k) same in
          rw b (
            rest
            ∙ dropped (name == k) (schedules_of k js) j.schedule
            ∙ ap
                (λ t.
                  (if name == k
                    then []
                    else if t
                    then j.schedule ∷ schedules_of k js
                    else schedules_of k js))
                (sym test))
      | inr b ↦
          let other : (j.project == name) ≡ false =
            eq_false_of_ne j.project name
              (λ e. clash (number_of (sym a ∙ ap (λ x. lookup x entries) e ∙ h)) b) in
          elim (Bool-cases (j.project == k)) [
            | inl c ↦
                let apart : (name == k) ≡ false =
                  grind
                    (arith, other, c, eq_iff j.project name, eq_iff j.project k, eq_iff name k) in
                rw (b, c, apart) (ap (λ x. j.schedule ∷ x) (rest ∙ rw apart refl))
            | inr c ↦ rw (b, c) rest
          ]
    ]
  where
    dropped :
        (b : Bool) (xs : List String) (x : String)
        → (if b then [] else xs) ≡ (if b then [] else if b then x ∷ xs else xs)
    dropped true xs x = refl
    dropped false xs x = refl

    clash : {m : ℕ} → m ≡ n → nat_eq m n ≡ false → ⊥
    clash {m} e f = ground arith

unscheduled :
    (name k : String) (s : Scheduler)
    → InStep s
    → schedules_of k (unschedule_repo name s).jobs
      ≡ (if name == k then [] else schedules_of k s.jobs)
unfolding unschedule_repo
unscheduled name k s (a, u, f) = go (lookup name s.entries) refl
  where
    go :
        (o : Option ℕ)
        → lookup name s.entries ≡ o
        → schedules_of k (drop_entry name o s).jobs
          ≡ (if name == k then [] else schedules_of k s.jobs)
    go none e = elim (Bool-cases (name == k)) [
      | inl b ↦ rw b (
          ap (λ x. schedules_of x s.jobs) (sym ((eq_iff name k).0 b))
          ∙ schedules-none name s.entries s.jobs e a)
      | inr b ↦ rw b refl
    ]
    go (some n) e = schedules-remove name k n s.entries s.jobs e (λ x h. u x name n h e) a

-- When a project is updated, in a scheduler whose jobs and entries are in step, it has exactly one job if its schedule is not empty and parses, and
-- none otherwise; the jobs of the other projects are as they were.
pub on_project_updated-jobs :
    (parses : String → Bool) (name schedule k : String) (s : Scheduler)
    → InStep s
    → schedules_of k (on_project_updated parses name schedule s).jobs ≡ (
        if name == k
        then (if not (schedule == "") && parses schedule then schedule ∷ [] else [])
        else schedules_of k s.jobs)
unfolding on_project_updated schedule_repo
on_project_updated-jobs parses name schedule k s i = elim (Bool-cases (schedule == "")) [
  | inl e ↦ rw e (unscheduled name k s i)
  | inr e ↦ elim (Bool-cases (parses schedule)) [
    | inl p ↦ rw (e, p) (rw (unscheduled name k s i) (go (name == k)))
    | inr p ↦ rw (e, p) (unscheduled name k s i)
  ]
]
  where
    go :
        (b : Bool)
        → (if b
            then schedule ∷ (if b then [] else schedules_of k s.jobs)
            else (if b then [] else schedules_of k s.jobs))
          ≡ (if b then schedule ∷ [] else schedules_of k s.jobs)
    go true = refl
    go false = refl

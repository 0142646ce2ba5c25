-- ===== src/Scheduler/Steps.antt =====
-- The callbacks of internal/scheduler/scheduler.go, one after the other.
use driftd.Prelude.{
  ℕ, suc, ◌<◌, String, Bool, false, Option, none, some, List, [], ◌∷◌, ◌==◌, ◌≡◌, refl, sym, ap,
  ◌∙◌, nat_eq, if◌then◌else◌, Map, lookup, put, erase, lookup-put, lookup-erase, Bool-cases, inl,
  inr, arith, eq_iff, eq_refl, eq_false_of_ne, All,
}
use driftd.Scheduler.{
  Job, Scheduler, remove_job, unschedule_repo, added_job, schedule_repo, on_project_added,
  on_project_updated, on_project_deleted, drop_entry,
}
use driftd.Scheduler.Jobs.{InStep, Known, number_of}

pub data Event : Type 0 where
  added : String → String → Event
  updated : String → String → Event
  deleted : String → Event

abbrev pub react : (String → Bool) → Event → Scheduler → Scheduler
react parses (added name schedule) = on_project_added parses name schedule
react parses (updated name schedule) = on_project_updated parses name schedule
react parses (deleted name) = on_project_deleted name

absent : {n : ℕ} {o : Option ℕ} → o ≡ some n → o ≡ none → ⊥
absent a b = cc

-- What erasing leaves was there.
erased :
    (name a : String) (n : ℕ) (m : Map ℕ) → lookup a (erase name m) ≡ some n → lookup a m ≡ some n
erased name a n m h = elim (Bool-cases (name == a)) [
  | inl b ↦ absurd (absent h (lookup-erase name a m ∙ rw b refl))
  | inr b ↦ sym (lookup-erase name a m ∙ rw b refl) ∙ h
]

Known-remove :
    (name : String) (n : ℕ) (m : Map ℕ) (js : List Job)
    → lookup name m ≡ some n
    → All (Known m) js
    → All (Known (erase name m)) (remove_job n js)
Known-remove name n m [] h k = tt
Known-remove name n m (j ∷ js) h (a, k) = elim (Bool-cases (nat_eq j.number n)) [
  | inl b ↦ rw b (Known-remove name n m js h k)
  | inr b ↦
      let other : (name == j.project) ≡ false =
        eq_false_of_ne name j.project
          (λ e. clash (number_of (sym a ∙ ap (λ x. lookup x m) (sym e) ∙ h)) b) in
      rw b (lookup-erase name j.project m ∙ rw other a, Known-remove name n m js h k)
]
  where
    clash : {m : ℕ} → m ≡ n → nat_eq m n ≡ false → ⊥
    clash {m} e f = ground arith

dropped-InStep :
    (name : String) (o : Option ℕ) (s : Scheduler)
    → lookup name s.entries ≡ o
    → InStep s
    → InStep (drop_entry name o s) × (lookup name (drop_entry name o s).entries ≡ none)
dropped-InStep name none s e i = (i, e)
dropped-InStep name (some n) s e (a, u, f) = (
  (
    Known-remove name n s.entries s.jobs e a,
    λ x y m h k. u x y m (erased name x m s.entries h) (erased name y m s.entries k),
    λ x m h. f x m (erased name x m s.entries h),
  ),
  lookup-erase name name s.entries ∙ rw (eq_refl name) refl,
)

Known-put :
    (name : String) (n : ℕ) (m : Map ℕ) (js : List Job)
    → lookup name m ≡ none
    → All (Known m) js
    → All (Known (put name n m)) js
Known-put name n m [] h k = tt
Known-put name n m (j ∷ js) h (a, k) =
    let other : (name == j.project) ≡ false =
      eq_false_of_ne name j.project (λ e. absent (ap (λ x. lookup x m) e ∙ a) h) in
    (lookup-put name n j.project m ∙ rw other a, Known-put name n m js h k)

added-InStep :
    (name schedule : String) (s : Scheduler)
    → lookup name s.entries ≡ none
    → InStep s
    → InStep (added_job name schedule s)
added-InStep name schedule s e (a, u, f) = (
  (
    lookup-put name s.next name s.entries ∙ rw (eq_refl name) refl,
    Known-put name s.next s.entries s.jobs e a,
  ),
  unique,
  fresh,
)
  where
    at :
        (x : String)
        → lookup x (put name s.next s.entries)
          ≡ (if name == x then some s.next else lookup x s.entries)
    at x = lookup-put name s.next x s.entries

    unique :
        (x y : String) (n : ℕ)
        → lookup x (put name s.next s.entries) ≡ some n
        → lookup y (put name s.next s.entries) ≡ some n
        → x ≡ y
    unique x y n h k = elim (Bool-cases (name == x)) [
      | inl b ↦ elim (Bool-cases (name == y)) [
        | inl c ↦ sym ((eq_iff name x).0 b) ∙ (eq_iff name y).0 c
        | inr c ↦
            let number : s.next ≡ n = number_of (sym (at x ∙ rw b refl) ∙ h) in
            let below = f y n (sym (at y ∙ rw c refl) ∙ k) in absurd (omega arith)
      ]
      | inr b ↦ elim (Bool-cases (name == y)) [
        | inl c ↦
            let number : s.next ≡ n = number_of (sym (at y ∙ rw c refl) ∙ k) in
            let below = f x n (sym (at x ∙ rw b refl) ∙ h) in absurd (omega arith)
        | inr c ↦ u x y n (sym (at x ∙ rw b refl) ∙ h) (sym (at y ∙ rw c refl) ∙ k)
      ]
    ]

    fresh : (x : String) (n : ℕ) → lookup x (put name s.next s.entries) ≡ some n → n < suc s.next
    fresh x n h = elim (Bool-cases (name == x)) [
      | inl b ↦ let number : s.next ≡ n = number_of (sym (at x ∙ rw b refl) ∙ h) in omega arith
      | inr b ↦ let below = f x n (sym (at x ∙ rw b refl) ∙ h) in omega arith
    ]

scheduled-InStep :
    (parses : String → Bool) (name schedule : String) (s : Scheduler)
    → InStep s
    → InStep (schedule_repo parses name schedule s).1
unfolding schedule_repo unschedule_repo
scheduled-InStep parses name schedule s i =
    let (j, e) = dropped-InStep name (lookup name s.entries) s refl i in
    elim (Bool-cases (parses schedule)) [
      | inl p ↦ rw p (added-InStep name schedule (drop_entry name (lookup name s.entries) s) e j)
      | inr p ↦ rw p j
    ]

-- Every callback keeps the jobs and the map of entries in step: each job is the one that the map has
-- for its project, no two projects share a number, and the numbers to come are new.
pub react-InStep :
    (parses : String → Bool) (e : Event) (s : Scheduler) → InStep s → InStep (react parses e s)
unfolding on_project_added on_project_updated on_project_deleted unschedule_repo
react-InStep parses (added name schedule) s i = elim (Bool-cases (schedule == "")) [
  | inl b ↦ rw b i
  | inr b ↦ rw b (scheduled-InStep parses name schedule s i)
]
react-InStep parses (updated name schedule) s i = elim (Bool-cases (schedule == "")) [
  | inl b ↦ rw b (dropped-InStep name (lookup name s.entries) s refl i).0
  | inr b ↦ rw b (scheduled-InStep parses name schedule s i)
]
react-InStep parses (deleted name) s i = (dropped-InStep name (lookup name s.entries) s refl i).0

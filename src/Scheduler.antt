-- ===== src/Scheduler.antt =====
-- internal/scheduler/scheduler.go: the cron jobs of the projects. The cron library is a list of its jobs: AddFunc
-- refuses an expression that it does not parse, and gives a job a new number; Remove drops the
-- job with a number.
pub mod Jobs
pub mod Steps
use driftd.Prelude.{
  ℕ, suc, ◌%◌, String, Bool, true, false, Option, none, some, List, [], ◌∷◌, ◌==◌, nat_eq, ltb, not,
  if◌then◌else◌, Map, lookup, put, erase, Result, ok, err, Error, external, Action, pure, raise,
  ◌>>=◌, ◌>>◌, ignore,
}
use driftd.Config.{ProjectConfig}

-- What a job is for: its project and its schedule.
pub record Job : Type 0 where
  pub number : ℕ
  pub project : String
  pub schedule : String

pub record Scheduler : Type 0 where
  pub jobs : List Job
  -- the number that the next job gets
  pub next : ℕ
  pub entries : Map ℕ

-- cron.Remove
abbrev pub remove_job : ℕ → List Job → List Job
remove_job n [] = []
remove_job n (j ∷ js) = let rest = remove_job n js in if nat_eq j.number n then rest else j ∷ rest

abbrev drop_entry : String → Option ℕ → Scheduler → Scheduler
drop_entry name none s = s
drop_entry name (some n) s = record s { jobs = remove_job n s.jobs; entries = erase name s.entries }

-- The first half of scheduleRepo, and unscheduleRepo.
unfoldable pub unschedule_repo : String → Scheduler → Scheduler
unschedule_repo name s = drop_entry name (lookup name s.entries) s

abbrev pub added_job : String → String → Scheduler → Scheduler
added_job name schedule s = record {
  jobs = record { number = s.next; project = name; schedule = schedule } ∷ s.jobs;
  next = suc s.next;
  entries = put name s.next s.entries;
}

-- `parses` is the parser of cron.
unfoldable pub schedule_repo : (String → Bool) → String → String → Action Scheduler Unit
schedule_repo parses name schedule s =
    let dropped = unschedule_repo name s in
    if parses schedule then (ok tt, added_job name schedule dropped) else (err external, dropped)

unfoldable pub on_project_added : (String → Bool) → String → String → Scheduler → Scheduler
on_project_added parses name schedule s =
    if schedule == "" then s else (schedule_repo parses name schedule s).1

unfoldable pub on_project_updated : (String → Bool) → String → String → Scheduler → Scheduler
on_project_updated parses name schedule s =
    if schedule == "" then unschedule_repo name s else (schedule_repo parses name schedule s).1

unfoldable pub on_project_deleted : String → Scheduler → Scheduler
on_project_deleted name s = unschedule_repo name s

-- The loop of Start over the listed projects; it ends at the first schedule that does not parse.
abbrev pub start : (String → Bool) → List ProjectConfig → Action Scheduler Unit
start parses [] s = (ok tt, s)
start parses (p ∷ ps) s = elim (p.schedule == "") [
  | true ↦ start parses ps s
  | false ↦ (schedule_repo parses p.name p.schedule >>= λ _. start parses ps) s
]

-- 20 seconds in nanoseconds
abbrev pub scheduled_scan_max_jitter : ℕ
scheduled_scan_max_jitter = 20_000_000_000

-- `fnv` is hash/fnv's 64-bit sum of the name.
unfoldable pub scheduled_scan_jitter : (String → ℕ) → String → ℕ
scheduled_scan_jitter fnv name = if name == "" then 0 else fnv name % scheduled_scan_max_jitter

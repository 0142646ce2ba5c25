-- ===== src/Worker/Reporting.antt =====
-- What the worker's report of a plan leaves of the work item.
use driftd.Prelude.{◌⊎◌, ℕ, ◌<◌, ◌≤◌, String}
use driftd.Redis.{Redis}
use driftd.Queue.Types.{StackScan}
use driftd.Queue.Store.{Db, Store}
use driftd.Queue.Outcomes.{failed_item}
use driftd.Queue.Outcomes.Closing.{Closed}
use driftd.Queue.Outcomes.Effects.{Requeued}
use driftd.Queue.Keeps.{Keeps}

module _ {r : Redis StackScan} where
  -- The outcome of a failure for the reason `msg`.
  abbrev pub Attempted : StackScan → String → ℕ → Db r → Db r → Type 0
  Attempted job msg now d d' =
      ((job.retries < job.max_retries) × Requeued job msg now d d')
      ⊎ ((job.max_retries ≤ job.retries) × Closed (failed_item job msg now) d')

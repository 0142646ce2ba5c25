-- ===== src/Orchestrate.antt =====
-- internal/orchestrate/orchestrate.go and internal/queue/priority.go: a scan of a project is
-- started, its repository cloned under the clone lock, and its stacks enqueued. Credentials, git,
-- the file system, the search for stacks and their versions are parameters: what they answer.
-- RenewScanLock (Queue/Renewal.antt) runs beside StartScan and is no part of it here.
pub mod Lifecycle
pub mod Access
pub mod Cloning
pub mod Intervals
pub mod Priority
use Prim.Native.String.{◌++◌}
use driftd.Prelude.{
  ℕ, zero, suc, ◌/◌, ltb, leb, nat_eq, ℤ, pos, minus, String, Bool, true, false, ◌&&◌, ◌||◌, not,
  Option, none, some, List, [], ◌∷◌, ◌==◌, length, Result, ok, err, Error, project_locked,
  no_stacks_discovered, no_stacks_enqueued, external, if◌then◌else◌, pure, raise, lift, examine,
  ◌>>=◌, ◌>>◌, ignore,
}
use driftd.Redis.{Redis}
use driftd.Queue.Types.{StackScan, Scan, ScanEvent}
use driftd.Queue.Store.{Exec}
use driftd.Queue.Events.{publish_scan_event}
use driftd.Queue.Locks.{acquire_clone_lock, renew_clone_lock, release_clone_lock}
use driftd.Queue.Scans.{cancel_and_start_scan}
use driftd.Queue.Lookups.{get_active_scan, set_scan_workspace, set_scan_versions, set_scan_total}
use driftd.Queue.Endings.{fail_scan, cancel_scan}
use driftd.Queue.Marks.{adjust_scan_counters}
use driftd.Queue.Outcomes.{clear_inflight_for_scan}
use driftd.Queue.Batches.{BatchResult, enqueue_batch}
use driftd.Queue.Scans

unfoldable pub trigger_priority : String → ℕ
trigger_priority trigger = if (trigger == "scheduled") || (trigger == "cron") then 1 else 2

-- What StartScan reads of the project's configuration.
pub record ProjectConfig : Type 0 where
  pub name : String
  pub url : String
  pub cancel_inflight : Bool

-- version.Versions
pub record Found : Type 0 where
  pub tf : String
  pub tg : String
  pub stack_tf : List (String × String)
  pub stack_tg : List (String × String)

-- What the components around the queue answer. `said` is Go's Error().
pub record Outside : Type 0 where
  pub auth : Result {0} Unit
  -- the URL to clone from, without the blanks around it, and its hash
  pub clone_url : String
  pub url_hash : String
  -- the git steps of cloneWorkspace: the workspace and the commit
  pub git : Result (String × String)
  -- how often the clone lock is tried before the context is done, and renewed during the git steps
  pub tries : ℕ
  pub renewals : ℕ
  pub discover : Result (List String)
  pub detect : Result Found
  pub said : Error → String

-- The readings of the clock on the way.
pub record Clock : Type 0 where
  pub id_at : ℕ
  pub started : ℕ
  pub new_id_at : ℕ
  pub superseded : ℕ
  pub ended : ℕ

-- Durations are in milliseconds, 0 for one that is not positive.
unfoldable pub clone_lock_renew_every : ℕ → ℕ → ℕ
clone_lock_renew_every renew_every ttl =
    if nat_eq ttl 0
    then 5000
    else if not (nat_eq renew_every 0) && ltb renew_every ttl
    then renew_every
    else let third = if ltb (ttl / 3) 5000 then 5000 else ttl / 3 in
      let half = if ltb (ttl / 2) 5000 then 5000 else ttl / 2 in
      if ltb half third then half else third

-- fmt.Sprintf("…: %v", err)
abbrev pub because : String → String → String
because what why = what ++ (": " ++ why)

module _ {r : Redis StackScan} where
  -- The loop ends with the lock, with an error, or when the context is done.
  unfoldable pub acquire_clone_lock_loop : ℕ → String → String → ℕ → Exec r Unit
  acquire_clone_lock_loop zero url_hash owner ttl = raise external
  acquire_clone_lock_loop (suc tries) url_hash owner ttl = do
    acquired ← acquire_clone_lock url_hash owner ttl
    if acquired then pure tt else acquire_clone_lock_loop tries url_hash owner ttl

  -- The renewals until the git steps are over, or one fails.
  unfoldable pub renew_clone_lock_loop : ℕ → String → String → ℕ → Exec r Unit
  renew_clone_lock_loop zero url_hash owner ttl = pure tt
  renew_clone_lock_loop (suc n) url_hash owner ttl = do
    renew_clone_lock url_hash owner ttl
    renew_clone_lock_loop n url_hash owner ttl

  -- releaseCloneLock: not after a renewal that failed.
  unfoldable pub release_after : Result {0} Unit → String → String → Exec r Unit
  release_after renewed url_hash owner = do lift renewed; release_clone_lock url_hash owner

  -- cloneWorkspace under the clone lock; an error of the git steps comes before one of the
  -- deferred release.
  unfoldable pub clone_locked : Outside → String → ℕ → Exec r (String × String)
  clone_locked o owner ttl = do
    acquire_clone_lock_loop o.tries o.url_hash owner ttl
    renewed ←
        examine (renew_clone_lock_loop o.renewals o.url_hash owner ttl) (λ e. pure (err e))
          (λ _. pure (ok tt))
    examine (release_after renewed o.url_hash owner) (λ e. do lift o.git; raise e) (λ _. lift o.git)

  unfoldable pub clone_workspace : Outside → String → ℕ → Exec r (String × String)
  clone_workspace o owner ttl =
      if o.clone_url == ""
      then raise external
      else clone_locked o owner (if nat_eq ttl 0 then 300_000 else ttl)

  -- The active scan is canceled, and the new one starts in its place.
  unfoldable pub supersede :
      ProjectConfig → ℕ → String → String → String → Clock → Scan → Exec r Scan
  supersede cfg lock_ttl trigger commit actor t active = do
    scan ←
        cancel_and_start_scan lock_ttl active.id cfg.name "superseded by new trigger" trigger commit
          actor (pos 0) t.new_id_at t.superseded
    ignore (clear_inflight_for_scan active.id)
    pure scan

  unfoldable pub outrank : ProjectConfig → ℕ → String → String → String → Clock → Scan → Exec r Scan
  outrank cfg lock_ttl trigger commit actor t active =
      if leb (trigger_priority active.trigger) (trigger_priority trigger)
      then supersede cfg lock_ttl trigger commit actor t active
      else raise project_locked

  unfoldable pub take_over :
      ProjectConfig → ℕ → String → String → String → Clock → Error → Exec r Scan
  take_over cfg lock_ttl trigger commit actor t project_locked =
      if cfg.cancel_inflight
      then (examine (get_active_scan cfg.name) (λ _. raise project_locked)
          (outrank cfg lock_ttl trigger commit actor t))
      else raise project_locked
  take_over cfg lock_ttl trigger commit actor t e = raise e

  -- The first lines of StartScan: a project that is locked may be taken over.
  unfoldable pub acquire_scan : ProjectConfig → ℕ → String → String → String → Clock → Exec r Scan
  acquire_scan cfg lock_ttl trigger commit actor t =
      examine (Scans.start_scan lock_ttl cfg.name trigger commit actor (pos 0) t.id_at t.started)
        (take_over cfg lock_ttl trigger commit actor t) pure

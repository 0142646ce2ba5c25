-- ===== src/Queue/Scans.antt =====
-- internal/queue/scan_store.go: scans are started, superseded, ended and read.
pub mod RoundTrip
pub mod Starting
pub mod Superseding
use driftd.Prelude.{
  ◌*◌, ℕ, ℤ, pos, ltb_ℤ, String, Bool, true, false, not, ok, none, some, List, [], ◌∷◌,
  if◌then◌else◌, holds, pure, raise, examine, project_locked, ◌>>=◌, ◌>>◌, ignore,
}
use driftd.Redis.{Redis, Cell, text, num, versions}
use driftd.Queue.Types.{StackScan, Scan, ScanEvent, running, canceled, unix, unix_z, zero_time}
use driftd.Queue.Store.{Db, Script, Exec, call, command, key_running_scans}
use driftd.Queue.Keys.{scan_id_of}
use driftd.Queue.Events.{publish_scan_event}
use driftd.Queue.Locks.{release_owned_lock}

-- scanRetention and stackScanRetention of keys.go, in seconds.
abbrev pub retention : ℕ
retention = 604_800

-- if total < 0 { total = 0 }
abbrev pub clip : ℤ → ℤ
clip total = if ltb_ℤ total (pos 0) then pos 0 else total

-- The `Scan` that StartScan and CancelAndStartScan build.
unfoldable pub new_scan : String → String → String → String → String → ℤ → ℕ → Scan
new_scan scan_id project trigger commit actor total now = record {
  id = scan_id;
  project_name = project;
  trigger = trigger;
  commit = commit;
  actor = actor;
  status = running;
  created_at = pos now;
  started_at = pos now;
  ended_at = zero_time;
  error = "";
  terraform_version = "";
  terragrunt_version = "";
  stack_tf_versions = [];
  stack_tg_versions = [];
  workspace_path = "";
  commit_sha = "";
  total = total;
  queued = total;
  running = pos 0;
  completed = pos 0;
  failed = pos 0;
  drifted = pos 0;
  errored = pos 0;
}

-- The fields that the pipelines of both write.
unfoldable pub scan_fields : Scan → List (String × Cell)
scan_fields scan =
    ("id", text scan.id)
    ∷ ("project", text scan.project_name)
    ∷ ("trigger", text scan.trigger)
    ∷ ("commit", text scan.commit)
    ∷ ("actor", text scan.actor)
    ∷ ("status", text scan.status)
    ∷ ("created_at", num (unix_z scan.created_at))
    ∷ ("started_at", num (unix_z scan.started_at))
    ∷ ("ended_at", num (pos 0))
    ∷ ("error", text "")
    ∷ ("total", num scan.total)
    ∷ ("queued", num scan.queued)
    ∷ ("running", num scan.running)
    ∷ ("completed", num scan.completed)
    ∷ ("failed", num scan.failed)
    ∷ ("drifted", num scan.drifted)
    ∷ ("errored", num scan.errored)
    ∷ ("tf_version", text "")
    ∷ ("tg_version", text "")
    ∷ ("stack_tf", versions [])
    ∷ ("stack_tg", versions [])
    ∷ ("workspace", text "")
    ∷ ("commit_sha", text "")
    ∷ []

-- The event of a scan that ended early.
abbrev pub ended_event : String → String → String → ℕ → ScanEvent
ended_event project scan_id status ended_at = record {
  project_name = project;
  scan_id = scan_id;
  commit_sha = "";
  status = status;
  completed = pos 0;
  failed = pos 0;
  total = pos 0;
  drifted_cnt = pos 0;
  started_at = none;
  ended_at = some ended_at;
}

module _ {r : Redis StackScan} where
  -- HSET, EXPIRE, SET of the pointer, ZADD.
  unfoldable pub create_pipeline : Scan → Db r → Db r
  create_pipeline scan d = record d {
    scans = r.hashes.hset d.scans scan.id (scan_fields scan);
    actives = r.ids.set d.actives scan.project_name scan.id retention;
    running_scans =
        r.sorted_sets.zadd d.running_scans key_running_scans scan.id (unix_z scan.started_at);
  }

  unfoldable pub start_scan : ℕ → String → String → String → String → ℤ → ℕ → ℕ → Exec r Scan
  start_scan lock_ttl project trigger commit actor total id_at now = do
    let scan_id = scan_id_of project id_at
    acquired ← call λ d.
        let (won, locks) = r.ids.setnx d.locks project scan_id lock_ttl in
        (ok won, record d { locks = locks })
    if not acquired then raise project_locked else do
      let scan = new_scan scan_id project trigger commit actor (clip total) now
      examine (call (command (create_pipeline scan)))
          (λ e. do ignore (release_owned_lock project scan_id); raise e) (λ _. pure scan)

  -- cancelAndAcquireScript
  unfoldable pub cancel_and_acquire : String → String → String → ℕ → ℕ → String → Script r Bool
  cancel_and_acquire project old_id new_id lock_ttl ended_at reason d =
      if not (holds (r.ids.get d.locks project) old_id) then (ok false, d) else (
        ok true,
        record d {
          scans = r.hashes.hset d.scans old_id (
              ("status", text canceled)
              ∷ ("ended_at", num (pos ended_at))
              ∷ ("error", text reason)
              ∷ []);
          running_scans = r.sorted_sets.zrem d.running_scans key_running_scans old_id;
          lasts = r.ids.set d.lasts project old_id retention;
          locks = r.ids.set d.locks project new_id lock_ttl;
          actives = r.ids.set d.actives project new_id retention;
        },
      )

  -- The second pipeline of CancelAndStartScan: HSET, EXPIRE, ZADD.
  unfoldable pub replace_pipeline : Scan → Db r → Db r
  replace_pipeline scan d = record d {
    scans = r.hashes.hset d.scans scan.id (scan_fields scan);
    running_scans =
        r.sorted_sets.zadd d.running_scans key_running_scans scan.id (unix_z scan.started_at);
  }

  unfoldable pub cancel_and_start_scan :
      ℕ → String → String → String → String → String → String → ℤ → ℕ → ℕ → Exec r Scan
  cancel_and_start_scan lock_ttl old_id project reason trigger commit actor total id_at now = do
    let new_id = scan_id_of project id_at
    won ← call (cancel_and_acquire project old_id new_id lock_ttl (unix id_at) reason)
    if not won then raise project_locked else do
      ignore (
          publish_scan_event project now
            (ended_event project old_id canceled (unix id_at * 1_000_000_000)))
      let scan = new_scan new_id project trigger commit actor (clip total) now
      examine (call (command (replace_pipeline scan)))
          (λ e. do ignore (release_owned_lock project new_id); raise e) (λ _. pure scan)

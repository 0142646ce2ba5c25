-- ===== src/Queue/Endings.antt =====
-- internal/queue/scan_store.go: FailScan and CancelScan.
pub mod Superseded
use driftd.Prelude.{ℕ, String, pos, [], ◌∷◌, ◌==◌, if◌then◌else◌, ◌>>◌, ignore}
use driftd.Redis.{Redis, text, num}
use driftd.Queue.Types.{StackScan, failed, canceled, unix}
use driftd.Queue.Store.{Db, Exec, call, command, key_running_scans}
use driftd.Queue.Events.{publish_scan_event}
use driftd.Queue.Locks.{release_owned_lock}
use driftd.Queue.Scans.{retention, ended_event}

module _ {r : Redis StackScan} where
  -- HSET, DEL of the pointer, ZREM.
  unfoldable pub fail_pipeline : String → String → String → ℕ → Db r → Db r
  fail_pipeline scan_id project msg now d = record d {
    scans =
        r.hashes.hset d.scans scan_id
          (("status", text failed) ∷ ("ended_at", num (pos (unix now))) ∷ ("error", text msg) ∷ []);
    actives = r.ids.del d.actives project;
    running_scans = r.sorted_sets.zrem d.running_scans key_running_scans scan_id;
  }

  unfoldable pub fail_scan : String → String → String → ℕ → Exec r Unit
  fail_scan scan_id project msg now = do
    call (command (fail_pipeline scan_id project msg now))
    release_owned_lock project scan_id
    ignore (publish_scan_event project now (ended_event project scan_id failed now))

  -- HSET, DEL of the pointer, SET of the last scan, ZREM.
  unfoldable pub cancel_pipeline : String → String → String → ℕ → Db r → Db r
  cancel_pipeline scan_id project reason now d = record d {
    scans = r.hashes.hset d.scans scan_id (
        ("status", text canceled)
        ∷ ("ended_at", num (pos (unix now)))
        ∷ ("error", text reason)
        ∷ []);
    actives = r.ids.del d.actives project;
    lasts = r.ids.set d.lasts project scan_id retention;
    running_scans = r.sorted_sets.zrem d.running_scans key_running_scans scan_id;
  }

  unfoldable pub cancel_scan : String → String → String → ℕ → Exec r Unit
  cancel_scan scan_id project reason now = do
    let why = if reason == "" then canceled else reason
    call (command (cancel_pipeline scan_id project why now))
    release_owned_lock project scan_id
    ignore (publish_scan_event project now (ended_event project scan_id canceled now))

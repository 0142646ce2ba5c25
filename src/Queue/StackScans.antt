-- ===== src/Queue/StackScans.antt =====
-- internal/queue/stack_scan_store.go, and of stack_scan_queue.go how work items are enqueued.
pub mod Enqueueing
pub mod Listing
use driftd.Prelude.{
  ℕ, pos, String, Bool, true, false, not, ok, ◌==◌, if◌then◌else◌, pure, raise,
  stack_scan_not_found, stack_scan_inflight, ◌>>=◌, ◌>>◌, cases,
}
use driftd.Redis.{Redis}
use driftd.Queue.Types.{StackScan, pending, unix}
use driftd.Queue.Store.{Db, Script, Exec, call, command, read, key_stack_scan_pending}
use driftd.Queue.Keys.{inflight_key, stack_scan_id_of}
use driftd.Queue.Scans.{retention}

abbrev pub inflight_of : StackScan → String
inflight_of ss = inflight_key ss.project_name ss.stack_path

-- if stackScan.ScanID != "" { return mark(…) }
abbrev pub when_scan : {r : Redis StackScan} → StackScan → Exec r Unit → Exec r Unit
when_scan ss m = if ss.scan_id == "" then pure tt else m

-- What Enqueue and EnqueueBatch set before the script runs.
abbrev pub prepared : StackScan → ℕ → ℕ → StackScan
prepared ss now salt = record ss {
  status = pending;
  created_at = now;
  id = if ss.id == "" then stack_scan_id_of ss.project_name ss.stack_path now salt else ss.id;
}

module _ {r : Redis StackScan} where
  unfoldable pub get_stack_scan : String → Exec r StackScan
  get_stack_scan id = do
    data_at ← call (read λ d. r.docs.get d.stack_scans id)
    cases data_at (raise stack_scan_not_found) pure

  abbrev pub save : StackScan → Db r → Db r
  save ss d = record d { stack_scans = r.docs.set d.stack_scans ss.id ss retention }

  unfoldable pub save_stack_scan : StackScan → Exec r Unit
  save_stack_scan ss = call (command (save ss))

  unfoldable pub remove_stack_scan_refs : StackScan → Exec r Unit
  remove_stack_scan_refs ss = do
    call (
        command λ d. record d {
          project_stack_scans = r.sets.srem d.project_stack_scans ss.project_name ss.id;
        })
    call (
        command λ d. record d {
          project_ordered = r.sorted_sets.zrem d.project_ordered ss.project_name ss.id;
        })

  -- enqueueStackScanScript; the failure of a command inside it undoes the writes before it, so
  -- the script as a whole is written or not.
  unfoldable pub enqueue_script : StackScan → Script r Bool
  enqueue_script ss d =
      let (free, inflight) = r.ids.setnx d.inflight (inflight_of ss) ss.id retention in
      if not free then (ok false, record d { inflight = inflight }) else (
        ok true,
        record d {
          inflight = inflight;
          stack_scans = r.docs.set d.stack_scans ss.id ss retention;
          project_stack_scans = r.sets.sadd d.project_stack_scans ss.project_name ss.id;
          project_ordered =
              r.sorted_sets.zadd d.project_ordered ss.project_name ss.id (pos (unix ss.created_at));
          pending = r.sets.sadd d.pending key_stack_scan_pending ss.id;
          scan_stack_scans =
              if ss.scan_id == ""
              then d.scan_stack_scans
              else r.sets.sadd d.scan_stack_scans ss.scan_id ss.id;
          work = r.lists.lpush d.work ss.id;
        },
      )

  unfoldable pub enqueue_atomic : StackScan → Exec r Bool
  enqueue_atomic ss = call (enqueue_script ss)

  unfoldable pub enqueue : StackScan → ℕ → ℕ → Exec r StackScan
  enqueue ss now salt = do
    enqueued ← enqueue_atomic (prepared ss now salt)
    if enqueued then pure (prepared ss now salt) else raise stack_scan_inflight

-- ===== src/Queue/Outcomes.antt =====
-- internal/queue/stack_scan_queue.go: a work item is completed, fails (and is queued again while
-- retries are left) or is canceled. The inflight markers of a scan are cleared.
pub mod Untouched
pub mod Closing
pub mod Effects
use driftd.Prelude.{
  ℕ, suc, leb, String, Bool, List, [], ◌∷◌, if◌then◌else◌, pure, examine, ◌>>=◌, ◌>>◌, ignore,
}
use driftd.Redis.{Redis}
use driftd.Queue.Types.{StackScan, pending, completed, failed, canceled}
use driftd.Queue.Store.{
  Script, Exec, call, command, read, key_stack_scan_pending, key_running_stack_scans,
}
use driftd.Queue.StackScans.{
  get_stack_scan, save_stack_scan, remove_stack_scan_refs, inflight_of, when_scan,
}
use driftd.Queue.Claims.{push, del_claim}
use driftd.Queue.Marks.{mark_retry, mark_completed, mark_failed}

abbrev pub completed_item : StackScan → ℕ → StackScan
completed_item ss now = record ss { status = completed; completed_at = now }

-- The work item on its way back to the queue.
abbrev pub retried_item : StackScan → String → StackScan
retried_item ss msg = record ss {
  error = msg;
  retries = suc ss.retries;
  status = pending;
  started_at = 0;
  worker_id = "";
}

abbrev pub failed_item : StackScan → String → ℕ → StackScan
failed_item ss msg now = record ss {
  error = msg;
  retries = suc ss.retries;
  status = failed;
  completed_at = now;
}

module _ {r : Redis StackScan} where
  abbrev del_inflight : StackScan → Script r Unit
  del_inflight ss = command λ d. record d { inflight = r.ids.del d.inflight (inflight_of ss) }

  abbrev srem_pending : StackScan → Script r Unit
  srem_pending ss =
      command λ d. record d { pending = r.sets.srem d.pending key_stack_scan_pending ss.id }

  abbrev zrem_running : StackScan → Script r Unit
  zrem_running ss = command λ d. record d {
    running_stack_scans = r.sorted_sets.zrem d.running_stack_scans key_running_stack_scans ss.id;
  }

  unfoldable pub complete : StackScan → Bool → ℕ → Exec r Unit
  complete ss drifted now = do
    save_stack_scan (completed_item ss now)
    ignore (call (del_claim ss.id))
    ignore (call (del_inflight ss))
    ignore (call (srem_pending ss))
    remove_stack_scan_refs ss
    when_scan ss (mark_completed ss.scan_id now drifted)

  -- Fail, with retries left.
  unfoldable pub requeue : StackScan → String → ℕ → Exec r StackScan
  requeue ss msg now = do
    save_stack_scan (retried_item ss msg)
    ignore (call (del_claim ss.id))
    ignore (
        call
          (command λ d. record d { pending = r.sets.sadd d.pending key_stack_scan_pending ss.id }))
    call (zrem_running ss)
    when_scan ss (mark_retry ss.scan_id now)
    call (push ss.id)
    pure (retried_item ss msg)

  -- Fail, for good.
  unfoldable pub give_up : StackScan → String → ℕ → Exec r StackScan
  give_up ss msg now = do
    save_stack_scan (failed_item ss msg now)
    ignore (call (del_claim ss.id))
    ignore (call (del_inflight ss))
    ignore (call (srem_pending ss))
    call (zrem_running ss)
    remove_stack_scan_refs ss
    when_scan ss (mark_failed ss.scan_id now)
    pure (failed_item ss msg now)

  unfoldable pub fail : StackScan → String → ℕ → Exec r StackScan
  fail ss msg now =
      if leb (suc ss.retries) ss.max_retries then requeue ss msg now else give_up ss msg now

  unfoldable pub cancel_stack_scan : StackScan → String → ℕ → Exec r Unit
  cancel_stack_scan ss reason now = do
    save_stack_scan (record ss { status = canceled; completed_at = now; error = reason })
    call (zrem_running ss)
    ignore (call (del_inflight ss))
    remove_stack_scan_refs ss

  unfoldable pub clear_inflight : List String → Exec r Unit
  clear_inflight [] = pure tt
  clear_inflight (id ∷ ids) =
      examine (get_stack_scan id) (λ _. clear_inflight ids)
        λ ss. do ignore (call (del_inflight ss)); clear_inflight ids

  -- ClearInflightForScan; it returns nothing, an error of SMEMBERS ends it.
  unfoldable pub clear_inflight_for_scan : String → Exec r Unit
  clear_inflight_for_scan scan_id = do
    ids ← call (read λ d. r.sets.smembers d.scan_stack_scans scan_id)
    clear_inflight ids

-- ===== src/Queue/Outcomes/Effects.antt =====
-- What Fail leaves of a work item.
use driftd.Prelude.{
  ◌∷◌, Bool, is_ok, result, if◌then◌else◌, ℕ, String, Bool, true, none, some, ◌≡◌, ◌>>◌, pure,
}
use driftd.Redis.{Redis}
use driftd.Queue.Types.{StackScan}
use driftd.Queue.Store.{
  Store, Db, Exec, online, call, key_stack_scan_pending, key_running_stack_scans,
}
use driftd.Queue.Marks.{mark_retry}
use driftd.Queue.StackScans.{when_scan}
use driftd.Queue.Claims.{push}
use driftd.Queue.Scans.{retention}
use driftd.Queue.Outcomes.{retried_item}

module _ {r : Redis StackScan} where
  -- What Fail writes of an item with retries left before the scan is told.
  abbrev pub reopened : StackScan → Db r → Db r
  reopened item d = record d {
    stack_scans = r.docs.set d.stack_scans item.id item retention;
    claims = r.ids.del d.claims item.id;
    pending = r.sets.sadd d.pending key_stack_scan_pending item.id;
    running_stack_scans = r.sorted_sets.zrem d.running_stack_scans key_running_stack_scans item.id;
  }

  -- The scan of the item, if it has one, is told of the retry without an error.
  abbrev pub scan_told : StackScan → String → ℕ → Db r → Bool
  scan_told ss msg now d = is_ok (
      result (when_scan ss (mark_retry ss.scan_id now)) (online (reopened (retried_item ss msg) d)))

-- The work item is pending again and without a claim, and its id is pushed on the work list if the
-- scan was told of the retry; if that failed the list is as it was.
pub record Requeued {r : Redis StackScan} (ss : StackScan) (msg : String) (now : ℕ) (d d' : Db r)
    : Type 0 where
  pub stored : r.docs.get d'.stack_scans ss.id ≡ some (retried_item ss msg)
  pub unclaimed : r.ids.get d'.claims ss.id ≡ none
  pub waiting : r.sets.sismember d'.pending key_stack_scan_pending ss.id ≡ true
  pub pushed :
      r.lists.lrange d'.work
      ≡ (if scan_told ss msg now d then ss.id ∷ r.lists.lrange d.work else r.lists.lrange d.work)

module _ {r : Redis StackScan} where
  abbrev back : StackScan → String → ℕ → Exec r StackScan
  back ss msg now = do
    when_scan ss (mark_retry ss.scan_id now)
    call (push ss.id)
    pure (retried_item ss msg)

-- ===== src/Queue/Outcomes/Closing.antt =====
-- What Complete, and Fail for good, leave of a work item.
use driftd.Prelude.{
  Bool, ℕ, String, Bool, false, none, some, ◌≡◌, refl, eq_refl, sym, subst, after, ◌>>=◌, ◌>>◌,
  ignore, pure,
}
use driftd.Redis.{Redis}
use driftd.Queue.Types.{StackScan}
use driftd.Queue.Store.{Db, Exec, online, call, key_stack_scan_pending, key_running_stack_scans}
use driftd.Queue.Marks.{mark_completed, mark_failed, completed_deltas}
use driftd.Queue.StackScans.{save_stack_scan, remove_stack_scan_refs, inflight_of, when_scan}
use driftd.Queue.Scans.{retention}
use driftd.Queue.Outcomes.{complete, give_up, completed_item, failed_item}
use driftd.Queue.Keeps.{Keeps, OfDb, keeps_rules}
use driftd.Queue.Outcomes.Untouched.{SameItems, Keeps-mark, Keeps-when_scan}

-- The work item is done: it is stored so, no worker holds it, its stack is not in flight, and it
-- is not among the pending ones.
pub record Closed {r : Redis StackScan} (item : StackScan) (d : Db r) : Type 0 where
  pub stored : r.docs.get d.stack_scans item.id ≡ some item
  pub unclaimed : r.ids.get d.claims item.id ≡ none
  pub landed : r.ids.get d.inflight (inflight_of item) ≡ none
  pub settled : r.sets.sismember d.pending key_stack_scan_pending item.id ≡ false

module _ {r : Redis StackScan} where
  pub Closed-same :
      (item : StackScan) (d₀ d : Db r) → SameItems d₀ d → Closed item d₀ → Closed item d
  Closed-same item d₀ d (a, b, c, e, w) k = record {
    stored = rw a k.stored;
    unclaimed = rw e k.unclaimed;
    landed = rw b k.landed;
    settled = rw c k.settled;
  }

  -- What Complete and the last attempt of Fail write before the scan is told.
  abbrev closed : StackScan → Db r → Db r
  closed item d = record d {
    stack_scans = r.docs.set d.stack_scans item.id item retention;
    claims = r.ids.del d.claims item.id;
    inflight = r.ids.del d.inflight (inflight_of item);
    pending = r.sets.srem d.pending key_stack_scan_pending item.id;
    project_stack_scans = r.sets.srem d.project_stack_scans item.project_name item.id;
    project_ordered = r.sorted_sets.zrem d.project_ordered item.project_name item.id;
  }

  closed-Closed : (item : StackScan) (d : Db r) → Closed item (closed item d)
  closed-Closed item d = record {
    stored = rw (r.docs.get-set d.stack_scans item.id item retention item.id, eq_refl item.id) refl;
    unclaimed = rw (r.ids.get-del d.claims item.id item.id, eq_refl item.id) refl;
    landed =
        rw
          (
            r.ids.get-del d.inflight (inflight_of item) (inflight_of item),
            eq_refl (inflight_of item),
          )
          refl;
    settled =
        rw
          (
            r.sets.sismember-srem d.pending key_stack_scan_pending item.id key_stack_scan_pending
                item.id,
            eq_refl item.id,
          )
          refl;
  }

  complete-run :
      (ss : StackScan) (drifted : Bool) (now : ℕ) (d : Db r)
      → complete ss drifted now (online d)
        ≡ when_scan ss
            (mark_completed ss.scan_id now drifted)
            (online (closed (completed_item ss now) d))
  unfolding complete save_stack_scan remove_stack_scan_refs ◌>>=◌ ignore call
  complete-run ss drifted now d = refl

  -- Complete closes the work item, whatever becomes of its scan's counters afterwards.
  pub complete-Closed :
      (ss : StackScan) (drifted : Bool) (now : ℕ) (d : Db r)
      → Closed (completed_item ss now) (after (complete ss drifted now) (online d)).db
  unfolding mark_completed
  complete-Closed ss drifted now d =
      let item = completed_item ss now in
      let d1 = closed item d in
      let told =
        (Keeps-when_scan d1 ss (mark_completed ss.scan_id now drifted)
            (Keeps-mark d1 ss.scan_id now (completed_deltas drifted))).holds_after
          (online d1) (refl, refl, refl, refl, refl) in
      subst (λ p. Closed item p.1.db) (sym (complete-run ss drifted now d))
        (Closed-same item d1 (when_scan ss (mark_completed ss.scan_id now drifted) (online d1)).1.db
          told (closed-Closed item d))

  abbrev told_failed : StackScan → String → ℕ → Exec r StackScan
  told_failed ss msg now = do
    when_scan ss (mark_failed ss.scan_id now)
    pure (failed_item ss msg now)

  abbrev off_running : StackScan → Db r → Db r
  off_running ss d = record d {
    running_stack_scans = r.sorted_sets.zrem d.running_stack_scans key_running_stack_scans ss.id;
  }

  give_up-run :
      (ss : StackScan) (msg : String) (now : ℕ) (d : Db r)
      → give_up ss msg now (online d)
        ≡ told_failed ss msg now (online (off_running ss (closed (failed_item ss msg now) d)))
  unfolding give_up save_stack_scan remove_stack_scan_refs ◌>>=◌ ignore call
  give_up-run ss msg now d = refl

  Keeps-told_failed :
      (d₀ : Db r) (ss : StackScan) (msg : String) (now : ℕ)
      → Keeps (OfDb (SameItems d₀)) (told_failed ss msg now)
  unfolding mark_failed
  Keeps-told_failed d₀ ss msg now = search (keeps_rules, Keeps-when_scan, Keeps-mark)

  pub give_up-Closed :
      (ss : StackScan) (msg : String) (now : ℕ) (d : Db r)
      → Closed (failed_item ss msg now) (after (give_up ss msg now) (online d)).db
  give_up-Closed ss msg now d =
      let item = failed_item ss msg now in
      let d1 = closed item d in
      let kept =
        (Keeps-told_failed d1 ss msg now).holds_after (online (off_running ss d1))
          (refl, refl, refl, refl, refl) in
      subst (λ p. Closed item p.1.db) (sym (give_up-run ss msg now d))
        (Closed-same item d1 (told_failed ss msg now (online (off_running ss d1))).1.db kept
          (closed-Closed item d))

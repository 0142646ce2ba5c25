-- ===== src/Queue/StackScans/Enqueueing.antt =====
-- What Enqueue leaves: one work item at a time for each stack of a project.
use driftd.Prelude.{
  ◌∙◌, Bool-cases, inl, inr, ℕ, pos, String, true, false, List, [], ◌∷◌, ◌==◌, ◌≡◌, refl, ok, err,
  Error, some, none, is_ok, after, result, ◌>>=◌, stack_scan_inflight, redis_error, eq_refl, ap,
  sym, subst, if◌then◌else◌,
}
use driftd.Redis.{Redis}
use driftd.Queue.Types.{StackScan, unix}
use driftd.Queue.Store.{
  Db, Store, Fault, served, refused, lost, online, call, key_stack_scan_pending,
}
use driftd.Queue.StackScans.{
  prepared, retention, inflight_of, enqueue_script, enqueue_atomic, enqueue,
}

abbrev held_error : List Fault → Error
held_error [] = stack_scan_inflight
held_error (served ∷ fs) = stack_scan_inflight
held_error (_ ∷ fs) = redis_error

abbrev rest_of : List Fault → List Fault
rest_of [] = []
rest_of (f ∷ fs) = fs

module _ (ss : StackScan) (now salt : ℕ) where
  abbrev pub item : StackScan
  item = prepared ss now salt

  module _ {r : Redis StackScan} where
    held_run :
        (d : Db r) (fs : List Fault) {other : String}
        → r.ids.get d.inflight (inflight_of ss) ≡ some other
        → enqueue ss now salt (record { db = d; faults = fs })
          ≡ (err (held_error fs), record { db = d; faults = rest_of fs })
    unfolding enqueue enqueue_atomic enqueue_script ◌>>=◌ call
    held_run d [] h = rw (r.ids.setnx_lem d.inflight (inflight_of ss) item.id retention, h) refl
    held_run d (served ∷ fs) h =
        rw (r.ids.setnx_lem d.inflight (inflight_of ss) item.id retention, h) refl
    held_run d (refused ∷ fs) h = refl
    held_run d (lost ∷ fs) h =
        rw (r.ids.setnx_lem d.inflight (inflight_of ss) item.id retention, h) refl

    -- While a work item of the stack is in flight, no other is enqueued for it, however the call
    -- fares, and nothing in Redis changes.
    pub enqueue-inflight :
        (s : Store r) {other : String}
        → r.ids.get s.db.inflight (inflight_of ss) ≡ some other
        → ((after (enqueue ss now salt) s).db ≡ s.db)
          × (is_ok (result (enqueue ss now salt) s) ≡ false)
    enqueue-inflight s h = (
      ap (λ p. p.1.db) (held_run s.db s.faults h),
      ap (λ p. is_ok p.0) (held_run s.db s.faults h),
    )

    -- The work item is on the list, pending, stored, and its stack in flight; its scan and its
    -- project know it, the project by the second of its making.
    pub record Enqueued (d d' : Db r) : Type 0 where
      pub queued : r.lists.lrange d'.work ≡ item.id ∷ r.lists.lrange d.work
      pub pending : r.sets.sismember d'.pending key_stack_scan_pending item.id ≡ true
      pub stored : r.docs.get d'.stack_scans item.id ≡ some item
      pub inflight : r.ids.get d'.inflight (inflight_of ss) ≡ some item.id
      pub in_project : r.sets.sismember d'.project_stack_scans ss.project_name item.id ≡ true
      pub ordered :
          r.sorted_sets.zscore d'.project_ordered ss.project_name item.id ≡ some (pos (unix now))
      pub in_scan : r.sets.sismember d'.scan_stack_scans ss.scan_id item.id ≡ (
          if ss.scan_id == "" then r.sets.sismember d.scan_stack_scans ss.scan_id item.id else true)

    abbrev enqueued : Db r → Db r
    enqueued d = record d {
      inflight = r.ids.set d.inflight (inflight_of ss) item.id retention;
      stack_scans = r.docs.set d.stack_scans item.id item retention;
      project_stack_scans = r.sets.sadd d.project_stack_scans ss.project_name item.id;
      project_ordered =
          r.sorted_sets.zadd d.project_ordered ss.project_name item.id (pos (unix now));
      pending = r.sets.sadd d.pending key_stack_scan_pending item.id;
      scan_stack_scans =
          if ss.scan_id == ""
          then d.scan_stack_scans
          else r.sets.sadd d.scan_stack_scans ss.scan_id item.id;
      work = r.lists.lpush d.work item.id;
    }

    enqueued-Enqueued : (d : Db r) → Enqueued d (enqueued d)
    enqueued-Enqueued d = record {
      queued = r.lists.lrange-lpush d.work item.id;
      pending =
          rw
            (
              r.sets.sismember-sadd d.pending key_stack_scan_pending item.id key_stack_scan_pending
                  item.id,
              eq_refl item.id,
            )
            refl;
      stored =
          rw (r.docs.get-set d.stack_scans item.id item retention item.id, eq_refl item.id) refl;
      inflight =
          rw
            (
              r.ids.get-set d.inflight (inflight_of ss) item.id retention (inflight_of ss),
              eq_refl (inflight_of ss),
            )
            refl;
      in_project =
          rw
            (
              r.sets.sismember-sadd d.project_stack_scans ss.project_name item.id ss.project_name
                  item.id,
              eq_refl ss.project_name,
              eq_refl item.id,
            )
            refl;
      ordered =
          rw
            (
              r.sorted_sets.zscore-zadd d.project_ordered ss.project_name item.id (pos (unix now))
                  ss.project_name item.id,
              eq_refl ss.project_name,
              eq_refl item.id,
            )
            refl;
      in_scan = elim (Bool-cases (ss.scan_id == "")) [
        | inl e ↦ rw e refl
        | inr e ↦
            rw
              (
                e,
                r.sets.sismember-sadd d.scan_stack_scans ss.scan_id item.id ss.scan_id item.id,
                eq_refl ss.scan_id,
                eq_refl item.id,
              )
              refl
      ];
    }

    enqueue-run :
        (d : Db r)
        → r.ids.get d.inflight (inflight_of ss) ≡ none
        → enqueue ss now salt (online d) ≡ (ok item, online (enqueued d))
    unfolding enqueue enqueue_atomic enqueue_script ◌>>=◌ call
    enqueue-run d h = rw (r.ids.setnx_lem d.inflight (inflight_of ss) item.id retention, h) refl

same_key :
    (ss other : StackScan)
    → other.project_name ≡ ss.project_name
    → other.stack_path ≡ ss.stack_path
    → inflight_of other ≡ inflight_of ss
same_key ss other project path = rw (project, path) refl

-- With no work item of the stack in flight and every call served, the new one is enqueued, and
-- then any other work item for the same stack of the project, of whatever scan, is turned away.
pub enqueue-Enqueued :
    {r : Redis StackScan} (ss other : StackScan) (now salt later salt' : ℕ) (d : Db r)
    → other.project_name ≡ ss.project_name
    → other.stack_path ≡ ss.stack_path
    → r.ids.get d.inflight (inflight_of ss) ≡ none
    → let s = after (enqueue ss now salt) (online d) in
      (result (enqueue ss now salt) (online d) ≡ ok (item ss now salt))
      × Enqueued ss now salt d s.db
      × (result (enqueue other later salt') s ≡ err stack_scan_inflight)
enqueue-Enqueued {r} ss other now salt later salt' d project path h =
    let e = enqueue-run ss now salt d h in
    let enqueued-in = enqueued-Enqueued ss now salt d in
    (
      ap (λ p. p.0) e,
      subst (λ p. Enqueued ss now salt d p.1.db) (sym e) enqueued-in,
      subst (λ p. result (enqueue other later salt') p.1 ≡ err stack_scan_inflight) (sym e)
          (ap (λ p. p.0)
            (held_run other later salt' (enqueued ss now salt d) [] (
              ap (r.ids.get (enqueued ss now salt d).inflight) (same_key ss other project path)
              ∙ enqueued-in.inflight))),
    )

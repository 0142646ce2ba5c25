-- ===== src/Queue/Marks/Balance.antt =====
-- The marks on a scan whose counters add up.
use driftd.Prelude.{
  pure, raise, unexpected_reply, >>=-ok, ignore_lem, ◌∙◌, ap, sym, subst, ℕ, ℤ, ◌<◌, String, Bool,
  true, false, List, ◌≡◌, ◌↔◌, refl, ok, some, after, arith, cases, eq_iff,
}
use driftd.Redis.{Redis, text}
use driftd.Queue.Types.{StackScan, running, unix, ProjectEvent, text_of}
use driftd.Queue.Store.{Db, Exec, online, call-online}
use driftd.Queue.Events.{publish_scan_event}
use driftd.Queue.Events.Quiet.{publish_scan_event-online}
use driftd.Queue.Transitions.{TransitionState, transition_script, run_scan_transition, update_event}
use driftd.Queue.Transitions.Counts.{Counts, bump_all, Balanced, Drained, is_done-Drained}
use driftd.Queue.Transitions.Loop.{CountersOnly, Shows}
use driftd.Queue.Transitions.Frame.{ends}
use driftd.Queue.Transitions.Refinement.{Settled, transition_script-refines}
use driftd.Queue.Marks.{
  running_deltas, retry_deltas, completed_deltas, failed_deltas, enqueue_failed_deltas,
  enqueue_skipped_deltas, mark, project_name_for_scan, mark_running, mark_retry, mark_completed,
  mark_failed, mark_enqueue_failed, mark_enqueue_skipped,
}

pub data Mark : Type 0 where
  runs retries fails enqueue_fails enqueue_skips : Mark
  completes : Bool → Mark

abbrev pub deltas_of : Mark → List (String × ℤ)
deltas_of runs = running_deltas
deltas_of retries = retry_deltas
deltas_of fails = failed_deltas
deltas_of enqueue_fails = enqueue_failed_deltas
deltas_of enqueue_skips = enqueue_skipped_deltas
deltas_of (completes drifted) = completed_deltas drifted

abbrev pub mark_as : {r : Redis StackScan} → Mark → String → ℕ → Exec r Unit
mark_as runs = mark_running
mark_as retries = mark_retry
mark_as fails = mark_failed
mark_as enqueue_fails = mark_enqueue_failed
mark_as enqueue_skips = mark_enqueue_skipped
mark_as (completes drifted) = λ scan_id now. mark_completed scan_id now drifted

-- The stack scan that is marked is where the mark takes it from.
abbrev pub Allowed : Mark → Counts → Type 0
Allowed runs c = 0 < c "queued"
Allowed enqueue_fails c = 0 < c "queued"
Allowed enqueue_skips c = 0 < c "queued"
Allowed retries c = 0 < c "running"
Allowed fails c = 0 < c "running"
Allowed (completes drifted) c = 0 < c "running"

bump_all-Balanced :
    (m : Mark) (c : Counts) → Allowed m c → Balanced c → Balanced (bump_all (deltas_of m) c)
bump_all-Balanced runs c a b = omega arith
bump_all-Balanced retries c a b = omega arith
bump_all-Balanced fails c a b = omega arith
bump_all-Balanced enqueue_fails c a b = omega arith
bump_all-Balanced enqueue_skips c a b = omega arith
bump_all-Balanced (completes true) c a b = omega arith
bump_all-Balanced (completes false) c a b = omega arith

deltas_of-CountersOnly : (m : Mark) → CountersOnly (deltas_of m)
deltas_of-CountersOnly runs = (refl, (refl, tt))
deltas_of-CountersOnly retries = (refl, (refl, tt))
deltas_of-CountersOnly fails = (refl, (refl, (refl, tt)))
deltas_of-CountersOnly enqueue_fails = (refl, (refl, (refl, tt)))
deltas_of-CountersOnly enqueue_skips = (refl, (refl, tt))
deltas_of-CountersOnly (completes true) = (refl, (refl, (refl, tt)))
deltas_of-CountersOnly (completes false) = (refl, (refl, tt))

ends_iff :
    (status : String) (c : Counts)
    → Balanced c
    → (ends status c ≡ true) ↔ ((status ≡ running) × Drained c)
ends_iff status c b = (
  (λ e. ((eq_iff status running).0 (ground arith), (is_done-Drained c b).0 (ground arith))),
  λ h. ground (arith, eq_iff status running, (is_done-Drained c b).1 h.1),
)

module _ {r : Redis StackScan} where
  -- The run of a transition: the script, then a publication.
  run_scan_transition-online :
      (d : Db r) (key project : String) (now : ℕ) (l : List (String × ℤ)) {st : TransitionState}
      {d' : Db r}
      → transition_script key project (unix now) l d ≡ (ok st, d')
      → (x : List ProjectEvent) × (run_scan_transition key project now l (online d)
          ≡ (ok tt, online (record d' { published = x })))
  unfolding run_scan_transition
  run_scan_transition-online d key project now l {st} {d'} run =
      let event = update_event key project st in
      let (x, quiet) = publish_scan_event-online project now event d' in
      (
        x,
        >>=-ok _ _ (call-online _ run)
            ∙ ignore_lem (publish_scan_event project now event) (online d')
            ∙ ap (λ p. (ok tt, p.1)) quiet,
      )

  mark-online :
      (d : Db r) (key project : String) (now : ℕ) (l : List (String × ℤ))
      → r.hashes.hget d.scans key "project" ≡ some (text project)
      → mark key now l (online d) ≡ run_scan_transition key project now l (online d)
  unfolding mark project_name_for_scan cases pure
  mark-online d key project now l pr = >>=-ok _ _ (
      >>=-ok _ _ (call-online _ refl)
      ∙ ap (λ o. cases o (raise unexpected_reply) (λ c. pure (text_of (some c))) (online d)) pr)

  Settled-published :
      (d d' : Db r) (key project status : String) (c : Counts) (x : List ProjectEvent)
      → Settled d d' key project status c
      → Settled d (record d' { published = x }) key project status c
  Settled-published d d' key project status c x s = record {
    counts = s.counts;
    new_status = s.new_status;
    lock = s.lock;
    active = s.active;
    last = s.last;
    indexed = s.indexed;
  }

  mark-Settled :
      (d : Db r) (key project status : String) (c : Counts) (now : ℕ) (l : List (String × ℤ))
      → CountersOnly l
      → Shows d key c
      → r.hashes.hget d.scans key "status" ≡ some (text status)
      → r.hashes.hget d.scans key "project" ≡ some (text project)
      → Settled d (after (mark key now l) (online d)).db key project status (bump_all l c)
  mark-Settled d key project status c now l only sh st pr =
      let (d', run, s, f) =
        transition_script-refines d key project status c (unix now) l only sh st in
      let (x, done) = run_scan_transition-online d key project now l run in
      subst (λ p. Settled d p.1.db key project status (bump_all l c))
        (sym (mark-online d key project now l pr ∙ done))
        (Settled-published d d' key project status (bump_all l c) x s)

  mark_as-mark :
      (m : Mark) (key : String) (now : ℕ) → mark_as {r = r} m key now ≡ mark key now (deltas_of m)
  unfolding mark_running mark_retry mark_failed mark_enqueue_failed mark_enqueue_skipped
      mark_completed
  mark_as-mark runs key now = refl
  mark_as-mark (completes b) key now = refl
  mark_as-mark _ key now = refl

  -- Each mark, with every call served, on a scan whose counters add up (total = queued + running + completed + failed) and
  -- with the stack scan counted where the mark takes it from: the counters move as the abstract
  -- counts do and still add up, and the scan ends (status, lock, pointers, index) exactly if it
  -- was running and nothing is left queued or running.
  pub mark-Balanced :
      (d : Db r) (key project status : String) (c : Counts) (now : ℕ) (m : Mark)
      → Shows d key c
      → r.hashes.hget d.scans key "status" ≡ some (text status)
      → r.hashes.hget d.scans key "project" ≡ some (text project)
      → Balanced c
      → Allowed m c
      → let c' = bump_all (deltas_of m) c in
        Settled d (after (mark_as m key now) (online d)).db key project status c'
        × Balanced c'
        × ((ends status c' ≡ true) ↔ ((status ≡ running) × Drained c'))
  mark-Balanced d key project status c now m sh st pr b a =
      let b' = bump_all-Balanced m c a b in
      (
        rw (mark_as-mark m key now) (
            mark-Settled d key project status c now (deltas_of m) (deltas_of-CountersOnly m) sh st
              pr),
        b',
        ends_iff status (bump_all (deltas_of m) c) b',
      )

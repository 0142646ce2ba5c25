-- ===== src/Queue/Ownership.antt =====
-- The project lock, under every schedule of faults: what one scan does, another scan's lock
-- survives (client.go, scan_store.go, scan_transitions.go).
use driftd.Prelude.{after, ℕ, ℤ, String, ◌≡◌, ◌≢◌, arith, some, eq_iff, List, [], ◌∷◌}
use driftd.Redis.{Redis, Cell}
use driftd.Queue.Types.{StackScan, ScanEvent, ProjectEvent}
use driftd.Queue.Store.{Db, Store}
use driftd.Queue.Locks.{release_script, release_owned_lock, renew_script, release_scan_lock}
use driftd.Queue.Events.{publish_event, publish_scan_event}
use driftd.Queue.Endings.{fail_scan, fail_pipeline, cancel_scan, cancel_pipeline}
use driftd.Queue.Transitions.{
  apply_delta, apply_deltas, settle, finish, transition_script, run_scan_transition,
}
use driftd.Queue.Renewal.{
  Tick, try_renew, renew_if_running, renew_running, renew_tick, renew_loop, renew_scan_lock,
}
use driftd.Queue.Keeps.{Keeps, OfDb, keeps_rules, Keeps-pure, Keeps-if, Keeps-bind}

-- The lock of the project is in the hands of this scan.
abbrev pub LockedBy : {r : Redis StackScan} → String → String → Db r → Type 0
LockedBy {r} project owner d = r.ids.get d.locks project ≡ some owner

module _ {r : Redis StackScan} (project owner scan_id : String) (other : scan_id ≢ owner) where
  abbrev Kept : Db r → Type 0
  Kept = LockedBy project owner

  Keeps-release_script : (p : String) → Keeps Kept (release_script p scan_id)
  unfolding release_script
  Keeps-release_script p = record {
    holds_after = λ d h.
        ground (arith, r.ids.get-del d.locks p project, eq_iff p project, eq_iff owner scan_id);
  }

  Keeps-release_owned_lock : (p : String) → Keeps (OfDb Kept) (release_owned_lock p scan_id)
  unfolding release_owned_lock
  Keeps-release_owned_lock p = search (keeps_rules, Keeps-release_script)

  Keeps-publish_event :
      (p : String) (now : ℕ) (e : ProjectEvent) → Keeps (OfDb Kept) (publish_event p now e)
  unfolding publish_event
  Keeps-publish_event p now e = search keeps_rules

  Keeps-publish_scan_event :
      (p : String) (now : ℕ) (e : ScanEvent) → Keeps (OfDb Kept) (publish_scan_event p now e)
  unfolding publish_scan_event
  Keeps-publish_scan_event p now e = search (keeps_rules, Keeps-publish_event)

  Keeps-fail_scan : (p msg : String) (now : ℕ) → Keeps (OfDb Kept) (fail_scan scan_id p msg now)
  unfolding fail_scan fail_pipeline
  Keeps-fail_scan p msg now =
      search (keeps_rules, Keeps-release_owned_lock, Keeps-publish_scan_event)

  Keeps-cancel_scan : (p msg : String) (now : ℕ) → Keeps (OfDb Kept) (cancel_scan scan_id p msg now)
  unfolding cancel_scan cancel_pipeline
  Keeps-cancel_scan p msg now =
      search (keeps_rules, Keeps-release_owned_lock, Keeps-publish_scan_event)

  Keeps-apply_delta : (f : String) (z : ℤ) → Keeps Kept (apply_delta scan_id f z)
  unfolding apply_delta
  Keeps-apply_delta f z = search keeps_rules

  Keeps-apply_deltas : (l : List (String × ℤ)) → Keeps Kept (apply_deltas scan_id l)
  unfolding apply_deltas
  Keeps-apply_deltas [] = search keeps_rules
  Keeps-apply_deltas ((f, z) ∷ l) =
      Keeps-bind _ _ (Keeps-apply_delta f z) (λ _. Keeps-apply_deltas l)

  Keeps-settle : (p : String) (now : ℕ) → Keeps Kept (settle scan_id p now)
  unfolding settle finish
  Keeps-settle p now = record {
    holds_after = λ d h.
        ground (arith, r.ids.get-del d.locks p project, eq_iff p project, eq_iff owner scan_id);
  }

  Keeps-run_scan_transition :
      (p : String) (now : ℕ) (l : List (String × ℤ))
      → Keeps (OfDb Kept) (run_scan_transition scan_id p now l)
  unfolding run_scan_transition transition_script
  Keeps-run_scan_transition p now l =
      search (keeps_rules, Keeps-apply_deltas, Keeps-settle, Keeps-publish_scan_event)

  Keeps-renew_script : (p : String) (ttl : ℕ) → Keeps Kept (renew_script p scan_id ttl)
  unfolding renew_script
  Keeps-renew_script p ttl = record {
    holds_after = λ d h. ground (arith, r.ids.get-pexpire d.locks p ttl project);
  }

  Keeps-renew_if_running :
      (p : String) (ttl : ℕ) (c : Cell) → Keeps (OfDb Kept) (renew_if_running scan_id p ttl c)
  unfolding renew_if_running try_renew
  Keeps-renew_if_running p ttl c = search (keeps_rules, Keeps-renew_script)

  Keeps-renew_running : (p : String) (ttl : ℕ) → Keeps (OfDb Kept) (renew_running scan_id p ttl)
  unfolding renew_running
  Keeps-renew_running p ttl = search (keeps_rules, Keeps-renew_if_running)

  Keeps-renew_tick :
      (p : String) (ttl age : ℕ) (t : Tick) → Keeps (OfDb Kept) (renew_tick scan_id p ttl age t)
  unfolding renew_tick
  Keeps-renew_tick p ttl age (el, now) = search (keeps_rules, Keeps-renew_running, Keeps-fail_scan)

  Keeps-renew_loop :
      (p : String) (ttl age : ℕ) (ts : List Tick)
      → Keeps (OfDb Kept) (renew_loop scan_id p ttl age ts)
  unfolding renew_loop
  Keeps-renew_loop p ttl age [] = search keeps_rules
  Keeps-renew_loop p ttl age (t ∷ ts) =
      Keeps-bind _ _ (Keeps-renew_tick p ttl age t)
        (λ on. Keeps-if on _ _ (Keeps-renew_loop p ttl age ts) (Keeps-pure tt))

-- What a scan's own functions may do to its project: fail it, cancel it, move its counters (which
-- may end it), keep its lock alive, release its lock.
pub data Deed : Type 0 where
  fails cancels : String → ℕ → Deed
  moves : ℕ → List (String × ℤ) → Deed
  renews : ℕ → ℕ → List Tick → Deed
  releases : Deed

abbrev pub perform : {r : Redis StackScan} → String → String → Deed → Store r → Store r
perform scan_id p (fails msg now) = after (fail_scan scan_id p msg now)
perform scan_id p (cancels why now) = after (cancel_scan scan_id p why now)
perform scan_id p (moves now l) = after (run_scan_transition scan_id p now l)
perform scan_id p (renews ttl age ts) = after (renew_scan_lock scan_id p ttl age ts)
perform scan_id p releases = after (release_scan_lock p scan_id)

-- Whatever another scan does for any project, and however its calls fare, the lock of the
-- project stays with the scan that holds it.
pub perform-LockedBy :
    {r : Redis StackScan} (project owner scan_id p : String) (deed : Deed) (s : Store r)
    → scan_id ≢ owner
    → LockedBy project owner s.db
    → LockedBy project owner (perform scan_id p deed s).db
unfolding renew_scan_lock release_scan_lock
perform-LockedBy project owner scan_id p (fails msg now) s other h =
    (Keeps-fail_scan project owner scan_id other p msg now).holds_after s h
perform-LockedBy project owner scan_id p (cancels msg now) s other h =
    (Keeps-cancel_scan project owner scan_id other p msg now).holds_after s h
perform-LockedBy project owner scan_id p (moves now l) s other h =
    (Keeps-run_scan_transition project owner scan_id other p now l).holds_after s h
perform-LockedBy project owner scan_id p (renews ttl age ts) s other h =
    (Keeps-renew_loop project owner scan_id other p ttl _ ts).holds_after s h
perform-LockedBy project owner scan_id p releases s other h =
    (Keeps-release_owned_lock project owner scan_id other p).holds_after s h

-- ===== src/Queue/Outcomes/Untouched.antt =====
-- What becomes of a scan's counters leaves the work items alone, under every schedule of faults,
-- and an empty schedule stays empty.
use driftd.Prelude.{ℕ, ℤ, arith, String, ◌==◌, ◌≡◌, List, [], ◌∷◌, subst, sym, refl}
use driftd.Redis.{Redis}
use driftd.Queue.Types.{StackScan, ScanEvent, ProjectEvent}
use driftd.Queue.Store.{Db, Exec, Store, Script, call, send}
use driftd.Queue.Events.{publish_event, publish_scan_event}
use driftd.Queue.Transitions.{
  apply_delta, apply_deltas, settle, finish, transition_script, run_scan_transition,
}
use driftd.Queue.Marks.{mark, project_name_for_scan}
use driftd.Queue.StackScans.{when_scan}
use driftd.Queue.Keeps.{
  Keeps, OfDb, keeps_rules, Keeps-pure, Keeps-raise, Keeps-cases, Keeps-if, Keeps-bind,
}

module _ {r : Redis StackScan} (d₀ : Db r) where
  -- The work items and the work list are as they were.
  abbrev pub SameItems : Db r → Type 0
  SameItems d =
      (d.stack_scans ≡ d₀.stack_scans)
      × (d.inflight ≡ d₀.inflight)
      × (d.pending ≡ d₀.pending)
      × (d.claims ≡ d₀.claims)
      × (d.work ≡ d₀.work)

  pub Keeps-publish_event :
      (p : String) (now : ℕ) (e : ProjectEvent) → Keeps (OfDb SameItems) (publish_event p now e)
  unfolding publish_event
  Keeps-publish_event p now e = search keeps_rules

  Keeps-publish_scan_event :
      (p : String) (now : ℕ) (e : ScanEvent) → Keeps (OfDb SameItems) (publish_scan_event p now e)
  unfolding publish_scan_event
  Keeps-publish_scan_event p now e = search (keeps_rules, Keeps-publish_event)

  Keeps-apply_delta : (k f : String) (z : ℤ) → Keeps SameItems (apply_delta k f z)
  unfolding apply_delta
  Keeps-apply_delta k f z = search keeps_rules

  Keeps-apply_deltas : (k : String) (l : List (String × ℤ)) → Keeps SameItems (apply_deltas k l)
  unfolding apply_deltas
  Keeps-apply_deltas k [] = search keeps_rules
  Keeps-apply_deltas k ((f, z) ∷ l) =
      Keeps-bind _ _ (Keeps-apply_delta k f z) (λ _. Keeps-apply_deltas k l)

  Keeps-settle : (k p : String) (now : ℕ) → Keeps SameItems (settle k p now)
  unfolding settle finish
  Keeps-settle k p now = record { holds_after = λ d h. ground arith }

  Keeps-run_scan_transition :
      (k p : String) (now : ℕ) (l : List (String × ℤ))
      → Keeps (OfDb SameItems) (run_scan_transition k p now l)
  unfolding run_scan_transition transition_script
  Keeps-run_scan_transition k p now l =
      search (keeps_rules, Keeps-apply_deltas, Keeps-settle, Keeps-publish_scan_event)

  pub Keeps-mark :
      (k : String) (now : ℕ) (l : List (String × ℤ)) → Keeps (OfDb SameItems) (mark k now l)
  unfolding mark project_name_for_scan
  Keeps-mark k now l = search (keeps_rules, Keeps-run_scan_transition)

  pub Keeps-when_scan :
      (ss : StackScan) (m : Exec r Unit)
      → Keeps (OfDb SameItems) m
      → Keeps (OfDb SameItems) (when_scan ss m)
  Keeps-when_scan ss m k = Keeps-if (ss.scan_id == "") _ _ (Keeps-pure tt) k

module _ {r : Redis StackScan} where
  -- Every call to come is served.
  abbrev pub Calm : Store r → Type 0
  Calm s = s.faults ≡ []

  Calm-call : {A : Type 0} (c : Script r A) → Keeps Calm (call c)
  unfolding call
  Calm-call c = record {
    holds_after = λ s h. subst (λ fs. (send fs c s.db).1.faults ≡ []) (sym h) refl;
  }

  Calm-publish_event :
      (p : String) (now : ℕ) (e : ProjectEvent) → Keeps Calm (publish_event p now e)
  unfolding publish_event
  Calm-publish_event p now e = search (keeps_rules, Calm-call)

  Calm-publish_scan_event :
      (p : String) (now : ℕ) (e : ScanEvent) → Keeps Calm (publish_scan_event p now e)
  unfolding publish_scan_event
  Calm-publish_scan_event p now e = search (keeps_rules, Calm-publish_event)

  Calm-run_scan_transition :
      (k p : String) (now : ℕ) (l : List (String × ℤ)) → Keeps Calm (run_scan_transition k p now l)
  unfolding run_scan_transition
  Calm-run_scan_transition k p now l = search (keeps_rules, Calm-call, Calm-publish_scan_event)

  pub Calm-mark : (k : String) (now : ℕ) (l : List (String × ℤ)) → Keeps Calm (mark k now l)
  unfolding mark project_name_for_scan
  Calm-mark k now l =
      Keeps-bind _ _
        (Keeps-bind _ _ (Calm-call _)
          (λ cell. Keeps-cases cell _ _ (Keeps-raise _) (λ c. Keeps-pure _)))
        (λ p. Calm-run_scan_transition k p now l)

  pub Calm-when_scan :
      (ss : StackScan) (m : Exec r Unit) → Keeps Calm m → Keeps Calm (when_scan ss m)
  Calm-when_scan ss m k = Keeps-if (ss.scan_id == "") _ _ (Keeps-pure tt) k

-- ===== src/Examples/Scanning.antt =====
-- The theorems on scans, their lock and their counters, at the data of the examples.
use mathlib.Core.Bool.{false≢true}
use driftd.Prelude.{
  sym, ◌∙◌, pos, String, true, false, [], ◌∷◌, ◌≡◌, ◌==◌, Bool-cases, subst, ◌↔◌, inl, inr, refl,
  arith, ok, err, some, redis_error, is_ok, after, result, eq_iff,
}
use driftd.Redis.{num}
use driftd.Queue.Types.{running}
use driftd.Queue.Store.{Db, online, served, refused, lost}
use driftd.Queue.Scans.{start_scan}
use driftd.Queue.Scans.Starting.{
  the_scan, Started, start_scan-held, start_scan-gives_back, start_scan-Started,
}
use driftd.Queue.Keys.{scan_id_of}
use driftd.Queue.Scans.{cancel_and_start_scan}
use driftd.Queue.Scans.Superseding.{
  Replaced, cancel_and_start_scan-locked, cancel_and_start_scan-Replaced,
}
use driftd.Queue.Transitions.{transition_script}
use driftd.Queue.Transitions.Counts.{bump_all, Balanced, Drained}
use driftd.Queue.Transitions.Loop.{Shows, is_counter}
use driftd.Queue.Transitions.Frame.{Framed, ends}
use driftd.Queue.Transitions.Refinement.{Settled, answer, transition_script-refines}
use driftd.Queue.Marks.{completed_deltas}
use driftd.Queue.Marks.Balance.{completes, mark_as, mark-Balanced}
use driftd.Queue.Ownership.{LockedBy, fails, perform, perform-LockedBy}
use driftd.Examples.Data.{server, empty, busy, counts}

-- What is shown of the counter g.
abbrev ShownAt : String → Type 0
ShownAt g = server.hashes.hget busy.scans "infra:1" g ≡ some (num (pos (counts g)))

at_name : (f g : String) → (f == g) ≡ true → ShownAt f → ShownAt g
at_name f g e = subst ShownAt ((eq_iff f g).0 e)

-- The counters of the running scan.
none_of :
    (g : String)
    → ("total" == g) ≡ false
    → ("queued" == g) ≡ false
    → ("running" == g) ≡ false
    → ("completed" == g) ≡ false
    → ("failed" == g) ≡ false
    → ("drifted" == g) ≡ false
    → ("errored" == g) ≡ false
    → is_counter g ≡ false
none_of g a b c d e f k = grind (
  arith,
  eq_iff g "total",
  eq_iff "total" g,
  eq_iff g "queued",
  eq_iff "queued" g,
  eq_iff g "running",
  eq_iff "running" g,
  eq_iff g "completed",
  eq_iff "completed" g,
  eq_iff g "failed",
  eq_iff "failed" g,
  eq_iff g "drifted",
  eq_iff "drifted" g,
  eq_iff g "errored",
  eq_iff "errored" g,
)

busy-Shows : Shows busy "infra:1" counts
busy-Shows g h = elim (Bool-cases ("total" == g)) [
  | inl e ↦ at_name "total" g e refl
  | inr ne0 ↦ elim (Bool-cases ("queued" == g)) [
    | inl e ↦ at_name "queued" g e refl
    | inr ne1 ↦ elim (Bool-cases ("running" == g)) [
      | inl e ↦ at_name "running" g e refl
      | inr ne2 ↦ elim (Bool-cases ("completed" == g)) [
        | inl e ↦ at_name "completed" g e refl
        | inr ne3 ↦ elim (Bool-cases ("failed" == g)) [
          | inl e ↦ at_name "failed" g e refl
          | inr ne4 ↦ elim (Bool-cases ("drifted" == g)) [
            | inl e ↦ at_name "drifted" g e refl
            | inr ne5 ↦ elim (Bool-cases ("errored" == g)) [
              | inl e ↦ at_name "errored" g e refl
              | inr ne6 ↦ absurd (false≢true (sym (none_of g ne0 ne1 ne2 ne3 ne4 ne5 ne6) ∙ h))
            ]
          ]
        ]
      ]
    ]
  ]
]

perform-LockedBy_example :
    LockedBy "infra" "infra:1"
      (perform "infra:2" "infra"
        (fails "gone" 5)
        (record { db = busy; faults = served ∷ lost ∷ [] })).db
perform-LockedBy_example =
    perform-LockedBy "infra" "infra:1" "infra:2" "infra" (fails "gone" 5)
      (record { db = busy; faults = served ∷ lost ∷ [] })
      (λ e. ground (arith, (eq_iff "infra:2" "infra:1").1 e)) refl

start_scan-held_example :
    ((after
        (start_scan 9 "infra" "manual" "" "" (pos 0) 17 17)
        (record { db = busy; faults = lost ∷ [] })).db
      ≡ busy)
    × (is_ok (
          result
            (start_scan 9 "infra" "manual" "" "" (pos 0) 17 17)
            (record { db = busy; faults = lost ∷ [] }))
        ≡ false)
start_scan-held_example =
    start_scan-held "infra" "manual" "" "" 9 17 17 (pos 0)
      (record { db = busy; faults = lost ∷ [] }) {owner = "infra:1"} refl

start_scan-gives_back_example :
    (result
        (start_scan 9 "infra" "manual" "" "" (pos 0) 17 17)
        (record { db = empty; faults = served ∷ refused ∷ refused ∷ [] })
      ≡ err redis_error)
    × (server.ids.get
          (after
            (start_scan 9 "infra" "manual" "" "" (pos 0) 17 17)
            (record { db = empty; faults = served ∷ refused ∷ refused ∷ [] })).db.locks
          "infra"
        ≡ some (scan_id_of "infra" 17))
start_scan-gives_back_example =
    start_scan-gives_back "infra" "manual" "" "" 9 17 17 (pos 0) empty refused (refused ∷ []) refl
      (λ e. cc)

start_scan-Started_example :
    (result (start_scan 9 "infra" "manual" "" "" (pos 3) 17 17) (online empty)
      ≡ ok (the_scan "infra" "manual" "" "" 9 17 17 (pos 3)))
    × Started "infra" "manual" "" "" 9 17 17
        (pos 3)
        (after (start_scan 9 "infra" "manual" "" "" (pos 3) 17 17) (online empty)).db
start_scan-Started_example = start_scan-Started "infra" "manual" "" "" 9 17 17 (pos 3) empty refl

transition_script-refines_example :
    (d' : Db server) × (transition_script "infra:1" "infra" 5 (completed_deltas true) busy
      ≡ (ok (answer "running" (bump_all (completed_deltas true) counts) 5), d'))
    × Settled busy d' "infra:1" "infra" "running" (bump_all (completed_deltas true) counts)
    × Framed busy d' "infra:1" "infra" "running" (bump_all (completed_deltas true) counts) 5
transition_script-refines_example =
    transition_script-refines busy "infra:1" "infra" "running" counts 5 (completed_deltas true)
      (refl, (refl, (refl, tt))) busy-Shows refl

mark-Balanced_example :
    Settled busy
      (after (mark_as (completes false) "infra:1" 5) (online busy)).db
      "infra:1"
      "infra"
      "running"
      (bump_all (completed_deltas false) counts)
    × Balanced (bump_all (completed_deltas false) counts)
    × ((ends "running" (bump_all (completed_deltas false) counts) ≡ true)
        ↔ (("running" ≡ running) × Drained (bump_all (completed_deltas false) counts)))
mark-Balanced_example =
    mark-Balanced busy "infra:1" "infra" "running" counts 5 (completes false) busy-Shows refl refl
      refl (omega arith)

cancel_and_start_scan-locked_example :
    ((after
        (cancel_and_start_scan 9 "infra:0" "infra" "late" "manual" "" "" (pos 0) 17 17)
        (record { db = busy; faults = lost ∷ [] })).db
      ≡ busy)
    × (is_ok (
          result
            (cancel_and_start_scan 9 "infra:0" "infra" "late" "manual" "" "" (pos 0) 17 17)
            (record { db = busy; faults = lost ∷ [] }))
        ≡ false)
cancel_and_start_scan-locked_example =
    cancel_and_start_scan-locked "infra" "infra:0" "late" "manual" "" "" 9 17 17 (pos 0)
      (record { db = busy; faults = lost ∷ [] }) refl

cancel_and_start_scan-Replaced_example :
    (result
        (cancel_and_start_scan 9 "infra:1" "infra" "late" "manual" "" "" (pos 0) 17 17)
        (online busy)
      ≡ ok (the_scan "infra" "manual" "" "" 9 17 17 (pos 0)))
    × Started "infra" "manual" "" "" 9 17 17
        (pos 0)
        (after
          (cancel_and_start_scan 9 "infra:1" "infra" "late" "manual" "" "" (pos 0) 17 17)
          (online busy)).db
    × Replaced "infra" "infra:1" "late" "manual" "" "" 9 17 17
        (pos 0)
        (after
          (cancel_and_start_scan 9 "infra:1" "infra" "late" "manual" "" "" (pos 0) 17 17)
          (online busy)).db
unfolding scan_id_of
cancel_and_start_scan-Replaced_example =
    cancel_and_start_scan-Replaced "infra" "infra:1" "late" "manual" "" "" 9 17 17 (pos 0) busy refl
      refl

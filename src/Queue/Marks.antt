-- ===== src/Queue/Marks.antt =====
-- internal/queue/scan_transitions.go: the marks, a lookup of the scan's project and a transition.
pub mod Balance
use driftd.Prelude.{
  ℕ, ℤ, pos, minus, String, Bool, some, List, [], ◌∷◌, if◌then◌else◌, raise, pure, unexpected_reply,
  ◌>>=◌, cases,
}
use driftd.Redis.{Redis}
use driftd.Queue.Types.{StackScan, text_of}
use driftd.Queue.Store.{Exec, call, read}
use driftd.Queue.Transitions.{run_scan_transition}

abbrev pub running_deltas : List (String × ℤ)
running_deltas = ("running", pos 1) ∷ ("queued", minus 1) ∷ []

abbrev pub retry_deltas : List (String × ℤ)
retry_deltas = ("running", minus 1) ∷ ("queued", pos 1) ∷ []

abbrev pub completed_deltas : Bool → List (String × ℤ)
completed_deltas drifted =
    ("running", minus 1) ∷ ("completed", pos 1) ∷ (if drifted then ("drifted", pos 1) ∷ [] else [])

abbrev pub failed_deltas : List (String × ℤ)
failed_deltas = ("running", minus 1) ∷ ("failed", pos 1) ∷ ("errored", pos 1) ∷ []

abbrev pub enqueue_failed_deltas : List (String × ℤ)
enqueue_failed_deltas = ("queued", minus 1) ∷ ("failed", pos 1) ∷ ("errored", pos 1) ∷ []

abbrev pub enqueue_skipped_deltas : List (String × ℤ)
enqueue_skipped_deltas = ("queued", minus 1) ∷ ("total", minus 1) ∷ []

module _ {r : Redis StackScan} where
  -- HGET of a missing field is an error here.
  unfoldable pub project_name_for_scan : String → Exec r String
  project_name_for_scan scan_id = do
    cell ← call (read λ d. r.hashes.hget d.scans scan_id "project")
    cases cell (raise unexpected_reply) (λ c. pure (text_of (some c)))

  -- The marks: a lookup of the project, then the transition.
  unfoldable pub mark : String → ℕ → List (String × ℤ) → Exec r Unit
  mark scan_id now deltas = do
    project ← project_name_for_scan scan_id
    run_scan_transition scan_id project now deltas

  unfoldable pub mark_running : String → ℕ → Exec r Unit
  mark_running scan_id now = mark scan_id now running_deltas

  unfoldable pub mark_retry : String → ℕ → Exec r Unit
  mark_retry scan_id now = mark scan_id now retry_deltas

  unfoldable pub mark_completed : String → ℕ → Bool → Exec r Unit
  mark_completed scan_id now drifted = mark scan_id now (completed_deltas drifted)

  unfoldable pub mark_failed : String → ℕ → Exec r Unit
  mark_failed scan_id now = mark scan_id now failed_deltas

  unfoldable pub mark_enqueue_failed : String → ℕ → Exec r Unit
  mark_enqueue_failed scan_id now = mark scan_id now enqueue_failed_deltas

  unfoldable pub mark_enqueue_skipped : String → ℕ → Exec r Unit
  mark_enqueue_skipped scan_id now = mark scan_id now enqueue_skipped_deltas

  unfoldable pub adjust_scan_counters : String → String → ℕ → List (String × ℤ) → Exec r Unit
  adjust_scan_counters scan_id project now deltas = run_scan_transition scan_id project now deltas

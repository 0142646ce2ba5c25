-- ===== src/Worker.antt =====
-- internal/worker: process.go, context_resolver.go, reporter.go and the two loops of worker.go. The
-- credentials and the plan (runner) are parameters: what they answer. The watch on a canceled scan
-- only ends the plan early; its effect is part of what the plan answers.
pub mod Reporting
use driftd.Prelude.{
  ℕ, String, Bool, true, false, Option, none, some, List, [], ◌∷◌, ◌==◌, not, Result, ok, err,
  Error, if◌then◌else◌, pure, lift, examine, ◌>>=◌, ◌>>◌, ignore, cases,
}
use driftd.Redis.{Redis}
use driftd.Queue.Types.{StackScan, Scan, StackEvent, canceled}
use driftd.Queue.Store.{Exec}
use driftd.Queue.Events.{publish_stack_event}
use driftd.Queue.Lookups.{get_scan}
use driftd.Queue.Outcomes.{complete, fail, cancel_stack_scan}
use driftd.Queue.Claims.{dequeue_round}
use driftd.Queue.Recovery.{
  recover_stale_stack_scans, recover_stale_scans, recover_orphaned_stack_scans,
}
use driftd.Version.Resolution.{version_for}

-- types.go, without the credentials and the scan itself.
pub record ScanContext : Type 0 where
  pub project_name : String
  pub project_url : String
  pub stack_path : String
  pub scan_id : String
  pub commit_sha : String
  pub workspace_path : String
  pub tf_version : String
  pub tg_version : String

-- What executePlan returns: an error, no result, or a result with its error text and its drift.
pub data Planned : Type 0 where
  plan_error : String → Planned
  no_result : Planned
  planned : String → Bool → Planned

-- What resolveScanContext returns.
pub data Resolved : Type 0 where
  scan_canceled : Resolved
  no_credentials : Error → Resolved
  resolved : ScanContext → Resolved

abbrev pub plain_context : StackScan → ScanContext
plain_context job = record {
  project_name = job.project_name;
  project_url = job.project_url;
  stack_path = job.stack_path;
  scan_id = job.scan_id;
  commit_sha = "";
  workspace_path = "";
  tf_version = "";
  tg_version = "";
}

abbrev pub scan_context : StackScan → Scan → ScanContext
scan_context job scan = record (plain_context job) {
  commit_sha = scan.commit_sha;
  workspace_path = scan.workspace_path;
  tf_version = version_for (scan.terraform_version, scan.stack_tf_versions) job.stack_path;
  tg_version = version_for (scan.terragrunt_version, scan.stack_tg_versions) job.stack_path;
}

-- The reason of a failure, in the order of reportResult's tests.
abbrev pub reason : Planned → Option String
reason (plan_error msg) = some msg
reason no_result = some "plan failed"
reason (planned msg drifted) = if msg == "" then none else some msg

abbrev pub drift_of : Planned → Bool
drift_of (planned msg drifted) = drifted
drift_of _ = false

abbrev event_of : StackScan → String → Option Bool → String → ℕ → StackEvent
event_of job status drifted error now = record {
  project_name = job.project_name;
  scan_id = job.scan_id;
  stack_path = job.stack_path;
  status = status;
  drifted = drifted;
  error = error;
  run_at = some now;
}

module _ {r : Redis StackScan} where
  -- resolveAuth asks for credentials only without a workspace.
  abbrev with_auth : (ScanContext → Result {0} Unit) → ScanContext → Exec r Resolved
  with_auth auth sc =
      if not (sc.workspace_path == "")
      then pure (resolved sc)
      else (examine (lift (auth sc)) (λ e. pure (no_credentials e)) (λ _. pure (resolved sc)))

  unfoldable pub resolve_scan_context :
      (ScanContext → Result {0} Unit) → StackScan → ℕ → Exec r Resolved
  resolve_scan_context auth job now =
      if job.scan_id == ""
      then with_auth auth (plain_context job)
      else (examine (get_scan job.scan_id) (λ _. with_auth auth (plain_context job))
          λ scan.
            if scan.status == canceled
            then (do ignore (cancel_stack_scan job "scan canceled" now); pure scan_canceled)
            else with_auth auth (scan_context job scan))

  unfoldable pub fail_stack : StackScan → String → ℕ → Exec r Unit
  fail_stack job msg now = do
    ignore (fail job msg now)
    ignore (publish_stack_event job.project_name now (event_of job "failed" none msg now))

  unfoldable pub complete_stack : StackScan → Bool → ℕ → Exec r Unit
  complete_stack job drifted now = do
    ignore (complete job drifted now)
    ignore
        (publish_stack_event job.project_name now (event_of job "completed" (some drifted) "" now))

  unfoldable pub report_result : StackScan → Planned → ℕ → Exec r Unit
  report_result job answer now =
      cases (reason answer) (complete_stack job (drift_of answer) now)
        (λ msg. fail_stack job msg now)

  abbrev work_on :
      (Error → String) → (ScanContext → Planned) → StackScan → ℕ → Resolved → Exec r Unit
  work_on said plan job now scan_canceled = pure tt
  work_on said plan job now (no_credentials e) = fail_stack job (said e) now
  work_on said plan job now (resolved sc) = report_result job (plan sc) now

  unfoldable pub process_stack_scan :
      (Error → String)
      → (ScanContext → Result {0} Unit)
      → (ScanContext → Planned)
      → StackScan
      → ℕ
      → Exec r Unit
  process_stack_scan said auth plan job now = do
    ignore (publish_stack_event job.project_name now (event_of job "running" none "" now))
    sc ← resolve_scan_context auth job now
    work_on said plan job now sc

  -- One round of processLoop: Dequeue waits, fails, or leaves a work item.
  unfoldable pub process_round :
      (Error → String)
      → (ScanContext → Result {0} Unit)
      → (ScanContext → Planned)
      → String
      → ℕ
      → Exec r Unit
  process_round said auth plan worker now =
      examine (dequeue_round worker now) (λ _. pure tt)
        λ found. cases found (pure tt) (λ job. process_stack_scan said auth plan job now)

  -- One round of recoveryLoop; an error of one repair does not keep the next from running.
  unfoldable pub recovery_round : ℕ → ℕ → Exec r Unit
  recovery_round max_age now = do
    ignore (recover_stale_stack_scans max_age now)
    ignore (recover_stale_scans max_age now)
    ignore recover_orphaned_stack_scans

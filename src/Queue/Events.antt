-- ===== src/Queue/Events.antt =====
-- internal/queue/events.go: what is published on a project's channel.
pub mod Quiet
use driftd.Prelude.{ℕ, String, none, ◌∷◌, ◌==◌, if◌then◌else◌, pure, pos, nat_eq}
use driftd.Redis.{Redis}
use driftd.Queue.Types.{StackScan, ProjectEvent, ScanEvent, StackEvent}
use driftd.Queue.Store.{Exec, call, command}

unfoldable pub scan_to_project_event : ScanEvent → ProjectEvent
scan_to_project_event e = record {
  type_name = "scan_update";
  project_name = e.project_name;
  scan_id = e.scan_id;
  commit_sha = e.commit_sha;
  stack_path = "";
  status = e.status;
  drifted = none;
  error = "";
  run_at = none;
  started_at = e.started_at;
  ended_at = e.ended_at;
  completed = e.completed;
  failed = e.failed;
  total = e.total;
  drifted_cnt = e.drifted_cnt;
  timestamp = 0;
}

unfoldable pub stack_to_project_event : StackEvent → ProjectEvent
stack_to_project_event e = record {
  type_name = "stack_update";
  project_name = e.project_name;
  scan_id = e.scan_id;
  commit_sha = "";
  stack_path = e.stack_path;
  status = e.status;
  drifted = e.drifted;
  error = e.error;
  run_at = e.run_at;
  started_at = none;
  ended_at = none;
  completed = pos 0;
  failed = pos 0;
  total = pos 0;
  drifted_cnt = pos 0;
  timestamp = 0;
}

-- The event as it goes out: for this project, with a time.
abbrev pub stamped : String → ℕ → ProjectEvent → ProjectEvent
stamped project now e = record e {
  project_name = project;
  timestamp = if nat_eq e.timestamp 0 then now else e.timestamp;
}

module _ {r : Redis StackScan} where
  unfoldable pub publish_event : String → ℕ → ProjectEvent → Exec r Unit
  publish_event project now e =
      if project == ""
      then pure tt
      else call (command λ d. record d { published = stamped project now e ∷ d.published })

  unfoldable pub publish_scan_event : String → ℕ → ScanEvent → Exec r Unit
  publish_scan_event project now e =
      publish_event (if project == "" then e.project_name else project) now
        (scan_to_project_event e)

  unfoldable pub publish_stack_event : String → ℕ → StackEvent → Exec r Unit
  publish_stack_event project now e =
      publish_event (if project == "" then e.project_name else project) now
        (stack_to_project_event e)

-- ===== src/Api/Streams.antt =====
-- internal/api/events_stream.go: what the streams of events tell a page. The scans of a snapshot are read from
-- their hashes (a time is in seconds, as in Api/Dto.antt).
pub mod Progress
use driftd.Prelude.{
  ℕ, ◌*◌, ◌/◌, ℤ, pos, pos_part, ltb_ℤ, leb_ℤ, eq_ℤ, ◌+ℤ◌, String, Bool, true, false, ◌||◌, not,
  ◌==◌, Option, none, some, get_or, List, [], if◌then◌else◌,
}
use driftd.Queue.Types.{Scan, ProjectEvent, running, completed, failed, canceled}
use driftd.Storage.{StackStatus}
use driftd.Queue.Types.{zero_time}

pub record ScanSummary : Type 0 where
  pub id : String
  pub status : String
  pub status_label : String
  pub completed : ℤ
  pub failed : ℤ
  pub total : ℤ
  pub progress_pct : ℕ
  pub is_terminal : Bool
  pub started_at : ℤ
  pub ended_at : Option ℤ
  pub commit_sha : String

pub record SsePayload : Type 0 where
  pub kind : String
  pub type_name : String
  pub project : String
  pub scan_id : String
  pub commit_sha : String
  pub stack_path : String
  pub status : String
  pub status_label : String
  pub is_terminal : Bool
  pub progress_pct : ℕ
  pub completed : ℤ
  pub failed : ℤ
  pub total : ℤ
  pub drifted : Option Bool
  pub error : String
  pub run_at : Option ℕ
  pub started_at : Option ℕ
  pub ended_at : Option ℕ
  pub active_scan : Option ScanSummary
  pub last_scan : Option ScanSummary
  pub stacks : List StackStatus

-- `done` between 0 and the total, as a number.
abbrev pub clamped : ℤ → ℤ → ℤ
clamped done total =
    let d = if ltb_ℤ done (pos 0) then pos 0 else done in if ltb_ℤ total d then total else d

unfoldable pub progress_of : ℤ → ℤ → ℤ → ℕ
progress_of completed failed total =
    if leb_ℤ total (pos 0)
    then 0
    else pos_part (clamped (completed +ℤ failed) total) * 100 / pos_part total

unfoldable pub is_terminal_scan : String → Bool
is_terminal_scan status = status == completed || status == failed || status == canceled

unfoldable pub is_terminal_stack : String → Bool
is_terminal_stack status = status == completed || status == failed || status == canceled

unfoldable pub scan_status_label : String → String
scan_status_label status =
    if status == running
    then "Running"
    else if status == completed
    then "Completed"
    else if status == failed
    then "Failed"
    else if status == canceled
    then "Canceled"
    else "Unknown"

unfoldable pub stack_status_label : String → Option Bool → String → String
stack_status_label status drifted error =
    if status == running
    then "Running"
    else if status == failed || not (error == "")
    then "Error"
    else if get_or drifted false
    then "Drifted"
    else "Healthy"

unfoldable pub build_scan_summary : Scan → ScanSummary
build_scan_summary scan = record {
  id = scan.id;
  status = scan.status;
  status_label = scan_status_label scan.status;
  completed = scan.completed;
  failed = scan.failed;
  total = scan.total;
  progress_pct = progress_of scan.completed scan.failed scan.total;
  is_terminal = is_terminal_scan scan.status;
  started_at = scan.started_at;
  ended_at = if eq_ℤ scan.ended_at zero_time then none else some scan.ended_at;
  commit_sha = scan.commit_sha;
}

abbrev no_payload : SsePayload
no_payload = record {
  kind = "unknown";
  type_name = "";
  project = "";
  scan_id = "";
  commit_sha = "";
  stack_path = "";
  status = "";
  status_label = "";
  is_terminal = false;
  progress_pct = 0;
  completed = pos 0;
  failed = pos 0;
  total = pos 0;
  drifted = none;
  error = "";
  run_at = none;
  started_at = none;
  ended_at = none;
  active_scan = none;
  last_scan = none;
  stacks = [];
}

abbrev summary_of : Option Scan → Option ScanSummary
summary_of none = none
summary_of (some scan) = some (build_scan_summary scan)

unfoldable pub build_snapshot_payload :
    String → Option Scan → Option Scan → List StackStatus → SsePayload
build_snapshot_payload project active last stacks = record no_payload {
  kind = "snapshot";
  project = project;
  active_scan = summary_of active;
  last_scan = summary_of last;
  stacks = stacks;
}

abbrev copied : ProjectEvent → SsePayload
copied e = record no_payload {
  type_name = e.type_name;
  project = e.project_name;
  scan_id = e.scan_id;
  commit_sha = e.commit_sha;
  stack_path = e.stack_path;
  status = e.status;
  completed = e.completed;
  failed = e.failed;
  total = e.total;
  drifted = e.drifted;
  error = e.error;
  run_at = e.run_at;
  started_at = e.started_at;
  ended_at = e.ended_at;
}

-- The event is not nil.
unfoldable pub build_update_payload : ProjectEvent → SsePayload
build_update_payload e =
    if e.type_name == "scan_update"
    then record (copied e) {
      kind = "scan";
      status_label = scan_status_label e.status;
      is_terminal = is_terminal_scan e.status;
      progress_pct = progress_of e.completed e.failed e.total;
    }
    else if e.type_name == "stack_update"
    then record (copied e) {
      kind = "stack";
      status_label = stack_status_label e.status e.drifted e.error;
      is_terminal = is_terminal_stack e.status;
    }
    else copied e

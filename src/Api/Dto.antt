-- ===== src/Api/Dto.antt =====
-- internal/api/dto.go: a scan and a stack scan as the API answers them. A time is in seconds; that of Go's zero time lies
-- in the year 1.
use driftd.Prelude.{ℕ, zero, suc, ℤ, pos, String, List}
use driftd.Queue.Types.{Scan, StackScan, unix, unix_z, zero_time}

pub record ApiScan : Type 0 where
  pub id : String
  pub project_name : String
  pub trigger : String
  pub commit : String
  pub actor : String
  pub status : String
  pub created_at : ℤ
  pub started_at : ℤ
  pub ended_at : ℤ
  pub error : String
  pub commit_sha : String
  pub total : ℤ
  pub queued : ℤ
  pub running : ℤ
  pub completed : ℤ
  pub failed : ℤ
  pub drifted : ℤ
  pub errored : ℤ
  pub terraform_version : String
  pub terragrunt_version : String
  pub stack_tf_versions : List (String × String)
  pub stack_tg_versions : List (String × String)

pub record ApiStackScan : Type 0 where
  pub id : String
  pub scan_id : String
  pub project_name : String
  pub stack_path : String
  pub status : String
  pub retries : ℕ
  pub max_retries : ℕ
  pub created_at : ℤ
  pub started_at : ℤ
  pub completed_at : ℤ
  pub error : String
  pub trigger : String
  pub commit : String
  pub actor : String

-- Unix() of a time that is kept as a reading of the clock, 0 for the zero time.
abbrev pub unix_of : ℕ → ℤ
unix_of zero = unix_z zero_time
unix_of (suc n) = pos (unix (suc n))

unfoldable pub to_api_scan : Scan → ApiScan
to_api_scan scan = record {
  id = scan.id;
  project_name = scan.project_name;
  trigger = scan.trigger;
  commit = scan.commit;
  actor = scan.actor;
  status = scan.status;
  created_at = unix_z scan.created_at;
  started_at = unix_z scan.started_at;
  ended_at = unix_z scan.ended_at;
  error = scan.error;
  commit_sha = scan.commit_sha;
  total = scan.total;
  queued = scan.queued;
  running = scan.running;
  completed = scan.completed;
  failed = scan.failed;
  drifted = scan.drifted;
  errored = scan.errored;
  terraform_version = scan.terraform_version;
  terragrunt_version = scan.terragrunt_version;
  stack_tf_versions = scan.stack_tf_versions;
  stack_tg_versions = scan.stack_tg_versions;
}

unfoldable pub to_api_stack_scan : StackScan → ApiStackScan
to_api_stack_scan scan = record {
  id = scan.id;
  scan_id = scan.scan_id;
  project_name = scan.project_name;
  stack_path = scan.stack_path;
  status = scan.status;
  retries = scan.retries;
  max_retries = scan.max_retries;
  created_at = unix_of scan.created_at;
  started_at = unix_of scan.started_at;
  completed_at = unix_of scan.completed_at;
  error = scan.error;
  trigger = scan.trigger;
  commit = scan.commit;
  actor = scan.actor;
}

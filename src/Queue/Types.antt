-- ===== src/Queue/Types.antt =====
-- The records of internal/queue: `Scan` and its hash (scan_store.go), `StackScan`
-- (stack_scan_queue.go), the statuses (keys.go), the events (events.go).
-- A time of these records is the nanoseconds since 1970. That of a `StackScan` is 0 for Go's zero
-- time; those of a `Scan` include negative ones, since a missing time is 1970 in a scan that was
-- read from its hash and Go's zero time in one that has just been made. What the source writes as
-- `Unix()` is in seconds.
use driftd.Prelude.{suc, negsuc, minus, ◌*◌, ℕ, ◌/◌, String, Bool, List, Option, some, ℤ, pos, []}
use driftd.Redis.{Cell, text, num, versions, field}

-- keys.go and scan_store.go: statuses.
abbrev pub pending : String
pending = "pending"

abbrev pub running : String
running = "running"

abbrev pub completed : String
completed = "completed"

abbrev pub failed : String
failed = "failed"

abbrev pub canceled : String
canceled = "canceled"

-- `t.Unix()` of a reading in nanoseconds.
abbrev pub unix : ℕ → ℕ
unix t = t / 1_000_000_000

-- `t.Unix()` of a time before or after 1970: the seconds, rounded down.
abbrev pub unix_z : ℤ → ℤ
unix_z (pos n) = pos (unix n)
unix_z (negsuc n) = negsuc (unix n)

-- time.Unix(s, 0)
abbrev pub time_unix : ℤ → ℤ
time_unix (pos n) = pos (n * 1_000_000_000)
time_unix (negsuc n) = minus (suc n * 1_000_000_000)

-- time.Time{}, the zero time
abbrev pub zero_time : ℤ
zero_time = minus 62_135_596_800_000_000_000

pub record StackScan : Type 0 where
  pub id : String
  pub scan_id : String
  pub project_name : String
  pub project_url : String
  pub stack_path : String
  pub status : String
  pub retries : ℕ
  pub max_retries : ℕ
  pub created_at : ℕ
  pub started_at : ℕ
  pub completed_at : ℕ
  pub worker_id : String
  pub error : String
  pub trigger : String
  pub commit : String
  pub actor : String

pub record Scan : Type 0 where
  pub id : String
  pub project_name : String
  pub trigger : String
  pub commit : String
  pub actor : String
  pub status : String
  pub created_at : ℤ
  pub started_at : ℤ
  pub ended_at : ℤ
  pub error : String
  pub terraform_version : String
  pub terragrunt_version : String
  pub stack_tf_versions : List (String × String)
  pub stack_tg_versions : List (String × String)
  pub workspace_path : String
  pub commit_sha : String
  pub total : ℤ
  pub queued : ℤ
  pub running : ℤ
  pub completed : ℤ
  pub failed : ℤ
  pub drifted : ℤ
  pub errored : ℤ

-- events.go
pub record ProjectEvent : Type 0 where
  pub type_name : String
  pub project_name : String
  pub scan_id : String
  pub commit_sha : String
  pub stack_path : String
  pub status : String
  pub drifted : Option Bool
  pub error : String
  pub run_at : Option ℕ
  pub started_at : Option ℕ
  pub ended_at : Option ℕ
  pub completed : ℤ
  pub failed : ℤ
  pub total : ℤ
  pub drifted_cnt : ℤ
  pub timestamp : ℕ

pub record ScanEvent : Type 0 where
  pub project_name : String
  pub scan_id : String
  pub commit_sha : String
  pub status : String
  pub completed : ℤ
  pub failed : ℤ
  pub total : ℤ
  pub drifted_cnt : ℤ
  pub started_at : Option ℕ
  pub ended_at : Option ℕ

pub record StackEvent : Type 0 where
  pub project_name : String
  pub scan_id : String
  pub stack_path : String
  pub status : String
  pub drifted : Option Bool
  pub error : String
  pub run_at : Option ℕ

-- What a missing field of a hash reads as: Go's zero values.
abbrev pub text_of : Option Cell → String
text_of (some (text t)) = t
text_of _ = ""

abbrev pub to_int : Option Cell → ℤ
to_int (some (num z)) = z
to_int _ = pos 0

abbrev pub versions_of : Option Cell → List (String × String)
versions_of (some (versions m)) = m
versions_of _ = []

unfoldable pub scan_from_hash : List (String × Cell) → Scan
scan_from_hash values = record {
  id = text_of (field "id" values);
  project_name = text_of (field "project" values);
  trigger = text_of (field "trigger" values);
  commit = text_of (field "commit" values);
  actor = text_of (field "actor" values);
  status = text_of (field "status" values);
  created_at = time_unix (to_int (field "created_at" values));
  started_at = time_unix (to_int (field "started_at" values));
  ended_at = time_unix (to_int (field "ended_at" values));
  error = text_of (field "error" values);
  terraform_version = text_of (field "tf_version" values);
  terragrunt_version = text_of (field "tg_version" values);
  stack_tf_versions = versions_of (field "stack_tf" values);
  stack_tg_versions = versions_of (field "stack_tg" values);
  workspace_path = text_of (field "workspace" values);
  commit_sha = text_of (field "commit_sha" values);
  total = to_int (field "total" values);
  queued = to_int (field "queued" values);
  running = to_int (field "running" values);
  completed = to_int (field "completed" values);
  failed = to_int (field "failed" values);
  drifted = to_int (field "drifted" values);
  errored = to_int (field "errored" values);
}

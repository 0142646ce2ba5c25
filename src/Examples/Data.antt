-- ===== src/Examples/Data.antt =====
-- The data of the examples: the project infra, its scans infra:1 and infra:2, and one work item.
use driftd.Prelude.{String, none, List, [], ◌∷◌, ◌==◌, pos, if◌then◌else◌}
use driftd.Redis.{Redis, Cell, text, num}
use driftd.Redis.Memory.{memory}
use driftd.Queue.Types.{StackScan, pending, completed}
use driftd.Queue.Store.{Db, key_running_scans}
use driftd.Queue.Transitions.Counts.{Counts}

abbrev pub server : Redis StackScan
server = memory StackScan

abbrev pub empty : Db server
empty = record {
  locks = λ _. none;
  clone_locks = λ _. none;
  scans = [];
  actives = λ _. none;
  lasts = λ _. none;
  running_scans = [];
  scan_stack_scans = [];
  stack_scans = λ _. none;
  inflight = λ _. none;
  pending = [];
  claims = λ _. none;
  project_stack_scans = [];
  project_ordered = [];
  running_stack_scans = [];
  work = [];
  published = [];
}

abbrev pub fields : List (String × Cell)
fields =
    ("id", text "infra:1")
    ∷ ("project", text "infra")
    ∷ ("status", text "running")
    ∷ ("trigger", text "manual")
    ∷ ("total", num (pos 2))
    ∷ ("queued", num (pos 0))
    ∷ ("running", num (pos 1))
    ∷ ("completed", num (pos 1))
    ∷ ("failed", num (pos 0))
    ∷ ("drifted", num (pos 0))
    ∷ ("errored", num (pos 0))
    ∷ []

-- The scan infra:1 holds the project's lock; one of its two stacks is done and one runs.
abbrev pub busy : Db server
busy = record empty {
  locks = server.ids.set empty.locks "infra" "infra:1" 1800;
  actives = server.ids.set empty.actives "infra" "infra:1" 1800;
  scans = server.hashes.hset empty.scans "infra:1" fields;
  running_scans = server.sorted_sets.zadd empty.running_scans key_running_scans "infra:1" (pos 1);
}

abbrev pub counts : Counts
counts g =
    if g == "total" then 2 else if g == "running" then 1 else if g == "completed" then 1 else 0

abbrev pub item : StackScan
item = record {
  id = "infra:vpc:1:7";
  scan_id = "infra:1";
  project_name = "infra";
  project_url = "";
  stack_path = "vpc";
  status = pending;
  retries = 0;
  max_retries = 1;
  created_at = 1;
  started_at = 0;
  completed_at = 0;
  worker_id = "";
  error = "";
  trigger = "manual";
  commit = "";
  actor = "";
}

abbrev pub done : StackScan
done = record item { status = completed }

-- The item waits; its stack is in flight.
abbrev pub waiting : Db server
waiting = record busy {
  stack_scans = server.docs.set busy.stack_scans item.id item 1800;
  work = server.lists.lpush busy.work item.id;
}

-- The id of an item that is done is still on the list.
abbrev pub leftover : Db server
leftover = record waiting { stack_scans = server.docs.set busy.stack_scans item.id done 1800 }

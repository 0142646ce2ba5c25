-- ===== src/Orchestrate/Lifecycle.antt =====
-- internal/orchestrate/orchestrate.go: StartScan, EnqueueStacks and the two of them together.
use driftd.Prelude.{
  ℕ, nat_eq, ℤ, pos, minus, String, Bool, none, some, List, [], ◌∷◌, length, Error,
  no_stacks_discovered, no_stacks_enqueued, if◌then◌else◌, pure, raise, lift, examine, ◌>>=◌, ◌>>◌,
  ignore,
}
use mathlib.Core.List.{◌++◌}
use driftd.Redis.{Redis}
use driftd.Queue.Types.{StackScan, Scan, ScanEvent}
use driftd.Queue.Store.{Exec}
use driftd.Queue.Events.{publish_scan_event}
use driftd.Queue.Lookups.{set_scan_workspace, set_scan_versions, set_scan_total}
use driftd.Queue.Endings.{fail_scan, cancel_scan}
use driftd.Queue.Marks.{adjust_scan_counters}
use driftd.Queue.Batches.{BatchResult, enqueue_batch}
use driftd.Orchestrate.{
  because, ProjectConfig, Found, Outside, Clock, acquire_scan, clone_workspace,
}

abbrev as_event : Scan → ScanEvent
as_event scan = record {
  project_name = scan.project_name;
  scan_id = scan.id;
  commit_sha = "";
  status = scan.status;
  completed = pos 0;
  failed = pos 0;
  total = scan.total;
  drifted_cnt = pos 0;
  started_at = elim scan.started_at [ pos n ↦ some n | _ ↦ none ];
  ended_at = none;
}

-- What a scan is started with.
pub record Request : Type 0 where
  pub trigger : String
  pub commit : String
  pub actor : String

-- The deltas of the stacks that were skipped and of those that failed.
abbrev pub adjustments : ℕ → ℕ → List (String × ℤ)
adjustments skipped errors =
    (if nat_eq skipped 0 then [] else ("queued", minus skipped) ∷ ("total", minus skipped) ∷ [])
    ++ (if nat_eq errors 0
        then []
        else ("queued", minus errors) ∷ ("failed", pos errors) ∷ ("errored", pos errors) ∷ [])

-- EnqueueStacksResult, with the paths and errors of the texts.
pub record EnqueueStacksResult : Type 0 where
  pub stack_ids : List String
  pub errors : List (String × Error)

abbrev ids_of : List StackScan → List String
ids_of [] = []
ids_of (ss ∷ l) = ss.id ∷ ids_of l

abbrev pub result_of : BatchResult → EnqueueStacksResult
result_of b = record { stack_ids = ids_of b.enqueued; errors = b.errors }

-- The StackScan of each path; its id, state and time come with the batch.
abbrev pub stack_scan_of : Scan → ProjectConfig → ℕ → Request → String → StackScan
stack_scan_of scan cfg max_retries q path = record {
  id = "";
  scan_id = scan.id;
  project_name = cfg.name;
  project_url = cfg.url;
  stack_path = path;
  status = "";
  retries = 0;
  max_retries = max_retries;
  created_at = 0;
  started_at = 0;
  completed_at = 0;
  worker_id = "";
  error = "";
  trigger = q.trigger;
  commit = q.commit;
  actor = q.actor;
}

-- The paths come with the random numbers of their ids.
abbrev pub batch_of : Scan → ProjectConfig → ℕ → Request → List (String × ℕ) → List (StackScan × ℕ)
batch_of scan cfg max_retries q [] = []
batch_of scan cfg max_retries q ((path, salt) ∷ l) =
    (stack_scan_of scan cfg max_retries q path, salt) ∷ batch_of scan cfg max_retries q l

module _ {r : Redis StackScan} where
  abbrev fail_with : {A : Type 0} → Scan → ProjectConfig → String → ℕ → Error → Exec r A
  fail_with scan cfg msg now e = do ignore (fail_scan scan.id cfg.name msg now); raise e

  unfoldable pub prepare_scan :
      Outside → ProjectConfig → ℕ → Clock → Scan → Exec r (Scan × List String)
  prepare_scan o cfg ttl t scan = do
    ignore (publish_scan_event cfg.name t.started (as_event scan))
    examine (lift o.auth) (λ e. fail_with scan cfg (o.said e) t.ended e)
        λ _.
          examine (clone_workspace o scan.id ttl) (λ e. fail_with scan cfg (o.said e) t.ended e)
            λ (path, sha).
              examine (set_scan_workspace scan.id path sha)
                (λ e. fail_with scan cfg (because "failed to set workspace" (o.said e)) t.ended e)
                λ _.
                  examine (lift o.discover) (λ e. fail_with scan cfg (o.said e) t.ended e)
                    λ stacks.
                      examine (find_versions stacks) (λ e. fail_with scan cfg (o.said e) t.ended e)
                        λ v.
                          examine (set_scan_versions scan.id v.tf v.tg v.stack_tf v.stack_tg)
                            (λ e.
                              fail_with scan cfg (because "failed to set versions" (o.said e))
                                t.ended e)
                            λ _. pure (scan, stacks)
    where
      find_versions : List String → Exec r Found
      find_versions [] = raise no_stacks_discovered
      find_versions stacks = lift o.detect

  unfoldable pub start_scan :
      Outside → ProjectConfig → ℕ → ℕ → Request → Clock → Exec r (Scan × List String)
  start_scan o cfg lock_ttl clone_ttl q t = do
    scan ← acquire_scan cfg lock_ttl q.trigger q.commit q.actor t
    prepare_scan o cfg clone_ttl t scan

  -- After the batch: the counters, and an end for a scan without stacks. In Go the result comes
  -- beside ErrNoStacksEnqueued, here only the error.
  unfoldable pub after_batch : Scan → ProjectConfig → ℕ → BatchResult → Exec r EnqueueStacksResult
  after_batch scan cfg now b = do
    let changes = adjustments b.skipped (length b.errors)
    adjust changes
    nothing_queued b.enqueued
    where
      adjust : List (String × ℤ) → Exec r Unit
      adjust [] = pure tt
      adjust (x ∷ l) = ignore (adjust_scan_counters scan.id cfg.name now (x ∷ l))

      nothing_queued : List StackScan → Exec r EnqueueStacksResult
      nothing_queued [] = do
        ignore (cancel_scan scan.id cfg.name "all stacks inflight" now)
        raise no_stacks_enqueued
      nothing_queued _ = pure (result_of b)

  unfoldable pub enqueue_stacks :
      Bool
      → (Error → String)
      → Scan
      → ProjectConfig
      → Request
      → List (String × ℕ)
      → ℕ
      → Exec r EnqueueStacksResult
  enqueue_stacks retry_once said scan cfg q stacks now =
      examine (set_scan_total scan.id (pos (length stacks)))
        (λ e. fail_with scan cfg (because "failed to set scan total" (said e)) now e)
        λ _.
          examine (enqueue_batch (batch_of scan cfg (if retry_once then 1 else 0) q stacks) now)
            (λ e. fail_with scan cfg (because "batch enqueue failed" (said e)) now e)
            (after_batch scan cfg now)

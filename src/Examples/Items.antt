-- ===== src/Examples/Items.antt =====
-- The theorems on work items, at the data of the examples.
use driftd.Prelude.{
  ℕ, pos, List, elem, or_else, not, ◌&&◌, if◌then◌else◌, String, [], ◌∷◌, ◌≡◌, ◌+◌, refl, ok, err,
  some, stack_scan_inflight, after, result, length,
}
use driftd.Queue.Types.{StackScan}
use driftd.Queue.Store.{Db, online, served, refused}
use driftd.Queue.Keys.{inflight_key}
use driftd.Queue.StackScans.{inflight_of, enqueue}
use driftd.Queue.StackScans.Enqueueing.{Enqueued, enqueue-inflight, enqueue-Enqueued}
use driftd.Queue.StackScans.Enqueueing
use driftd.Queue.Batches.{BatchResult, enqueue_batch}
use driftd.Queue.Batches.Partition.{enqueue_batch-size}
use driftd.Queue.Recovery.Index.{
  all_keys, passed_over, start_of, score, rebuild_running_scans_index,
}
use driftd.Queue.Recovery.Index.Scores.{rebuild_running_scans_index-score}
use driftd.Redis.{num}
use driftd.Examples.Data.{server, empty, busy, item, waiting}

-- The stack is in flight already.
abbrev flying : Db server
flying = record waiting { inflight = server.ids.set empty.inflight (inflight_of item) item.id 9 }

-- The same stack, asked for by another scan.
abbrev rival : StackScan
rival = record item { id = ""; scan_id = "infra:2"; trigger = "webhook" }

enqueue-Enqueued_example :
    (result (enqueue item 5 6) (online busy) ≡ ok (Enqueueing.item item 5 6))
    × Enqueued item 5 6 busy (after (enqueue item 5 6) (online busy)).db
    × (result (enqueue rival 7 8) (after (enqueue item 5 6) (online busy))
        ≡ err stack_scan_inflight)
enqueue-Enqueued_example = enqueue-Enqueued item rival 5 6 7 8 busy refl refl refl

enqueue_batch-size_example :
    (b : BatchResult) × (result
        (enqueue_batch ((item, 1) ∷ (item, 2) ∷ []) 5)
        (record { db = busy; faults = served ∷ refused ∷ [] })
      ≡ ok b)
    × (length b.enqueued + b.skipped + length b.errors ≡ 2)
enqueue_batch-size_example =
    enqueue_batch-size ((item, 1) ∷ (item, 2) ∷ []) 5
      (record { db = busy; faults = served ∷ refused ∷ [] })

-- The index is gone, and the scan has run since 7.
abbrev unindexed : Db server
unindexed = record busy {
  scans = server.hashes.hset busy.scans "infra:1" (("started_at", num (pos 7)) ∷ []);
  running_scans = empty.running_scans;
}

abbrev pages : List (List String)
pages = ("infra:1" ∷ "project:infra" ∷ []) ∷ ("last:infra" ∷ []) ∷ []

rebuild_running_scans_index-score_example :
    (k : ℕ) × (d2 : Db server) × (rebuild_running_scans_index pages 0 (online unindexed)
      ≡ (ok k, online d2))
    × (score d2 "infra:1" ≡ (
        if elem "infra:1" (all_keys pages) && not (passed_over unindexed "infra:1")
        then or_else (score unindexed "infra:1") (some (start_of unindexed "infra:1"))
        else score unindexed "infra:1"))
rebuild_running_scans_index-score_example =
    rebuild_running_scans_index-score pages 0 unindexed "infra:1"

-- Two paths, one key: the stack a__b counts as in flight while a/b is.
same_key : inflight_key "infra" "a/b" ≡ inflight_key "infra" "a__b"
unfolding inflight_key
same_key = refl

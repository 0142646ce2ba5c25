-- ===== src/Queue/Batches.antt =====
-- internal/queue/stack_scan_queue.go: EnqueueBatch.
pub mod Partition
use driftd.Prelude.{
  ℕ, suc, String, Bool, List, [], ◌∷◌, ◌++◌, Error, if◌then◌else◌, pure, examine, ◌>>=◌,
}
use driftd.Redis.{Redis}
use driftd.Queue.Types.{StackScan}
use driftd.Queue.Store.{Exec}
use driftd.Queue.StackScans.{prepared, enqueue_atomic}

-- EnqueueBatchResult; an error keeps the stack's path.
pub record BatchResult : Type 0 where
  pub enqueued : List StackScan
  pub skipped : ℕ
  pub errors : List (String × Error)

abbrev pub empty_result : BatchResult
empty_result = record { enqueued = []; skipped = 0; errors = [] }

abbrev with_error : StackScan → Error → BatchResult → BatchResult
with_error ss e b = record b { errors = b.errors ++ (ss.stack_path, e) ∷ [] }

abbrev with_answer : StackScan → Bool → BatchResult → BatchResult
with_answer ss enqueued b =
    if enqueued
    then record b { enqueued = b.enqueued ++ ss ∷ [] }
    else record b { skipped = suc b.skipped }

-- Each stack comes with the random number of its id.
abbrev pub prepare_all : List (StackScan × ℕ) → ℕ → List StackScan
prepare_all [] now = []
prepare_all ((ss, salt) ∷ rest) now = prepared ss now salt ∷ prepare_all rest now

module _ {r : Redis StackScan} where
  -- The loop over the batch, whose items have their ids, states and times.
  unfoldable pub enqueue_all : List StackScan → BatchResult → Exec r BatchResult
  enqueue_all [] b = pure b
  enqueue_all (ss ∷ rest) b =
      examine (enqueue_atomic ss) (λ e. enqueue_all rest (with_error ss e b))
        (λ enqueued. enqueue_all rest (with_answer ss enqueued b))

  unfoldable pub enqueue_batch : List (StackScan × ℕ) → ℕ → Exec r BatchResult
  enqueue_batch stacks now = enqueue_all (prepare_all stacks now) empty_result

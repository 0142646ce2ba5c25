-- ===== src/Queue/Batches/Partition.antt =====
-- EnqueueBatch tries every stack of its batch.
use driftd.Prelude.{
  ℕ, suc, ◌+◌, arith, Bool, true, false, List, [], ◌∷◌, ◌≡◌, refl, length, length-append, Result,
  ok, err, Error, result, examine, resume,
}
use driftd.Redis.{Redis}
use driftd.Queue.Types.{StackScan}
use driftd.Queue.Store.{Store}
use driftd.Queue.StackScans.{enqueue_atomic}
use driftd.Queue.Batches.{
  BatchResult, enqueue_all, enqueue_batch, prepare_all, empty_result, with_error, with_answer,
}

abbrev pub size : BatchResult → ℕ
size b = length b.enqueued + b.skipped + length b.errors

abbrev pub Counts : ℕ → Result BatchResult → Type 0
Counts n x = (b : BatchResult) × (x ≡ ok b) × (size b ≡ n)

size-with_error :
    (ss : StackScan) (e : Error) (b : BatchResult) → size (with_error ss e b) ≡ suc (size b)
size-with_error ss e b = omega (arith, length-append b.errors ((ss.stack_path, e) ∷ []))

size-with_answer :
    (ss : StackScan) (a : Bool) (b : BatchResult) → size (with_answer ss a b) ≡ suc (size b)
size-with_answer ss true b = omega (arith, length-append b.enqueued (ss ∷ []))
size-with_answer ss false b = omega arith

length-prepare_all : (l : List (StackScan × ℕ)) (now : ℕ) → length (prepare_all l now) ≡ length l
length-prepare_all [] now = refl
length-prepare_all ((ss, salt) ∷ l) now = omega (arith, length-prepare_all l now)

module _ {r : Redis StackScan} where
  enqueue_all-Counts :
      (l : List StackScan) (b : BatchResult) (s : Store r)
      → Counts (size b + length l) (result (enqueue_all l b) s)
  unfolding enqueue_all examine
  enqueue_all-Counts [] b s = (b, refl, omega arith)
  enqueue_all-Counts (ss ∷ rest) b s =
      let (x, s') = enqueue_atomic ss s in step x s' (λ b'. enqueue_all-Counts rest b' s')
    where
      step :
          (x : Result Bool) (s' : Store r)
          → ((b' : BatchResult) → Counts (size b' + length rest) (result (enqueue_all rest b') s'))
          → Counts
              (size b + suc (length rest))
              (resume x
                (λ e. enqueue_all rest (with_error ss e b))
                (λ a. enqueue_all rest (with_answer ss a b))
                s').0
      step (ok a) s' ih =
          let (b', e, n) = ih (with_answer ss a b) in
          (b', e, omega (arith, size-with_answer ss a b))
      step (err x) s' ih =
          let (b', e, n) = ih (with_error ss x b) in (b', e, omega (arith, size-with_error ss x b))

  -- However its calls fare, EnqueueBatch answers, and every stack of the batch is counted once: as
  -- enqueued, skipped or failed.
  pub enqueue_batch-size :
      (stacks : List (StackScan × ℕ)) (now : ℕ) (s : Store r)
      → (b : BatchResult) × (result (enqueue_batch stacks now) s ≡ ok b)
        × (length b.enqueued + b.skipped + length b.errors ≡ length stacks)
  unfolding enqueue_batch
  enqueue_batch-size stacks now s =
      let (b, e, n) = enqueue_all-Counts (prepare_all stacks now) empty_result s in
      (b, e, omega (arith, length-prepare_all stacks now))

-- ===== src/Queue/Claims.antt =====
-- internal/queue/stack_scan_queue.go: a worker takes a work item.
pub mod Ghosts
use driftd.Prelude.{
  Bool, true, false, ℕ, pos, String, not, Option, none, some, List, [], ◌∷◌, ok, ◌==◌,
  if◌then◌else◌, pure, raise, examine, already_claimed, ◌>>=◌, ◌>>◌, ignore, cases,
}
use driftd.Redis.{Redis}
use driftd.Queue.Types.{StackScan, pending, running, unix}
use driftd.Queue.Store.{
  Script, Exec, call, command, key_stack_scan_pending, key_running_stack_scans,
}
use driftd.Queue.StackScans.{get_stack_scan, save_stack_scan, when_scan}
use driftd.Queue.Marks.{mark_running}

-- The life of a claim key, 30 minutes, in seconds.
abbrev claim_ttl : ℕ
claim_ttl = 1800

-- The answers of dequeueClaimScript: -1, 0 and 1.
pub data Claim : Type 0 where
  missing repushed claimed : Claim

abbrev is_claimed : Claim → Bool
is_claimed claimed = true
is_claimed _ = false

-- What a claim makes of the work item.
abbrev pub started : StackScan → String → ℕ → StackScan
started ss worker now = record ss { status = running; started_at = now; worker_id = worker }

module _ {r : Redis StackScan} where
  abbrev pub push : String → Script r Unit
  push id = command λ d. record d { work = r.lists.lpush d.work id }

  abbrev pub del_claim : String → Script r Unit
  del_claim id = command λ d. record d { claims = r.ids.del d.claims id }

  -- BRPOP: `none` when its second of waiting is over.
  unfoldable pub pop_work : Script r (Option String)
  pop_work d = elim (r.lists.rpop d.work) [
    | none ↦ (ok none, d)
    | some (id, rest) ↦ (ok (some id), record d { work = rest })
  ]

  abbrev claim_of : String → String → Option StackScan → Script r Claim
  claim_of id worker none d = (ok missing, d)
  claim_of id worker (some ss) d =
      if not (ss.status == pending)
      then (ok repushed, record d { work = r.lists.lpush d.work id })
      else let (free, claims) = r.ids.setnx d.claims id worker claim_ttl in
        if not free
        then (ok repushed, record d { claims = claims; work = r.lists.lpush d.work id })
        else (ok claimed, record d { claims = claims })

  -- dequeueClaimScript
  unfoldable pub claim_script : String → String → Script r Claim
  claim_script id worker d = claim_of id worker (r.docs.get d.stack_scans id) d

  -- The writes that markRunningAfterClaim and claimAndMarkRunning share.
  unfoldable pub mark_running_after_claim : StackScan → String → ℕ → Exec r StackScan
  mark_running_after_claim ss worker now = do
    let ss' = started ss worker now
    save_stack_scan ss'
    ignore (
        call
          (command λ d. record d { pending = r.sets.srem d.pending key_stack_scan_pending ss.id }))
    call (
        command λ d. record d {
          running_stack_scans =
              r.sorted_sets.zadd d.running_stack_scans key_running_stack_scans ss.id
                (pos (unix now));
        })
    when_scan ss' (mark_running ss.scan_id now)
    pure ss'

  -- After the script's answer 1.
  unfoldable pub take_claimed : String → String → ℕ → Exec r (Option StackScan)
  take_claimed id worker now =
      examine (get_stack_scan id) (λ _. do ignore (call (del_claim id)); pure none)
        λ ss.
          examine (mark_running_after_claim ss worker now)
            (λ _. do ignore (call (del_claim id)); ignore (call (push id)); pure none)
            (λ ss'. pure (some ss'))

  unfoldable pub take_popped : String → ℕ → String → Exec r (Option StackScan)
  take_popped worker now id =
      examine (call (claim_script id worker)) (λ _. do ignore (call (push id)); pure none)
        (λ answer. if is_claimed answer then take_claimed id worker now else pure none)

  -- One round of Dequeue's loop: an error or a work item ends it, `none` goes on.
  unfoldable pub dequeue_round : String → ℕ → Exec r (Option StackScan)
  dequeue_round worker now = do
    popped ← call pop_work
    cases popped (pure none) (take_popped worker now)

  -- Dequeue, as far as the rounds at the given times go: `none` if it still waits.
  unfoldable pub dequeue : String → List ℕ → Exec r (Option StackScan)
  dequeue worker [] = pure none
  dequeue worker (now ∷ later) = do
    found ← dequeue_round worker now
    cases found (dequeue worker later) (λ ss. pure (some ss))

  -- claimAndMarkRunning, its deferred removal of the claim included.
  unfoldable pub claim_and_mark_running : StackScan → String → ℕ → Exec r StackScan
  claim_and_mark_running ss worker now =
      if not (ss.status == pending) then raise already_claimed else do
        won ← call λ d.
            let (free, claims) = r.ids.setnx d.claims ss.id worker claim_ttl in
            (ok free, record d { claims = claims })
        if not won then raise already_claimed else do
          examine (mark_running_after_claim ss worker now)
              (λ e. do ignore (call (del_claim ss.id)); raise e) pure

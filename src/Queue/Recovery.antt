-- ===== src/Queue/Recovery.antt =====
-- internal/queue/scan_recovery.go, stack_scan_recovery.go and RecoverOrphanedStackScans of
-- stack_scan_queue.go: what the worker's recovery loop repairs. `now` is the clock in nanoseconds
-- and `max_age` an age in nanoseconds.
pub mod Index
use driftd.Prelude.{
  ℕ, ◌-◌, ◌+◌, pos, ltb, nat_eq, String, not, List, [], ◌∷◌, ◌==◌, if◌then◌else◌, pure, examine,
  ◌>>=◌, ◌>>◌, ℤ, ignore,
}
use driftd.Redis.{Redis}
use driftd.Queue.Types.{StackScan, pending, running, unix}
use driftd.Queue.Store.{
  Exec, Script, call, command, read, key_running_scans, key_running_stack_scans,
  key_stack_scan_pending,
}
use driftd.Queue.Scans.{retention}
use driftd.Queue.Lookups.{get_scan}
use driftd.Queue.Endings.{fail_scan}
use driftd.Queue.StackScans.{get_stack_scan, inflight_of}
use driftd.Queue.Claims.{push}
use driftd.Queue.Outcomes.{fail}

-- time.Now().Add(-maxAge).Unix(); no start lies before the epoch, so 0 serves for what is earlier
abbrev pub cutoff : ℕ → ℕ → ℤ
cutoff now max_age = pos (unix (now - max_age))

module _ {r : Redis StackScan} where
  abbrev drop_running_scan : String → Script r Unit
  drop_running_scan id =
      command
        λ d. record d { running_scans = r.sorted_sets.zrem d.running_scans key_running_scans id }

  -- The body of the loop over the ids: 1 if the scan was failed, else 0.
  unfoldable pub recover_scan : ℕ → String → Exec r ℕ
  recover_scan now id =
      examine (get_scan id) (λ _. do ignore (call (drop_running_scan id)); pure 0)
        λ scan.
          if not (scan.status == running)
          then (do ignore (call (drop_running_scan id)); pure 0)
          else (examine (fail_scan scan.id scan.project_name "scan exceeded maximum duration" now)
              (λ _. pure 0) (λ _. pure 1))

  -- `for _, id := range ids`: the body of every round leaves a number, and they add up.
  unfoldable pub tally : (String → Exec r ℕ) → List String → ℕ → Exec r ℕ
  tally body [] n = pure n
  tally body (id ∷ ids) n = do k ← body id; tally body ids (n + k)

  unfoldable pub recover_stale_scans : ℕ → ℕ → Exec r ℕ
  recover_stale_scans max_age now = if nat_eq max_age 0 then pure 0 else do
    ids ← call (
        read
          λ d. r.sorted_sets.zrangebyscore d.running_scans key_running_scans (cutoff now max_age))
    tally (recover_scan now) ids 0

  abbrev drop_running_stack_scan : String → Script r Unit
  drop_running_stack_scan id = command λ d. record d {
    running_stack_scans = r.sorted_sets.zrem d.running_stack_scans key_running_stack_scans id;
  }

  -- 1 if the work item was failed or queued again, else 0.
  unfoldable pub recover_stack_scan : ℕ → ℕ → String → Exec r ℕ
  recover_stack_scan max_age now id =
      examine (get_stack_scan id) (λ _. do ignore (call (drop_running_stack_scan id)); pure 0)
        λ ss.
          if not (ss.status == running)
          then (do ignore (call (drop_running_stack_scan id)); pure 0)
          else if ltb now (ss.started_at + max_age)
          then pure 0
          else (examine (fail ss "stale stack scan exceeded max age" now) (λ _. pure 0)
              (λ _. pure 1))

  unfoldable pub recover_stale_stack_scans : ℕ → ℕ → Exec r ℕ
  recover_stale_stack_scans max_age now = if nat_eq max_age 0 then pure 0 else do
    ids ← call (
        read λ d.
          r.sorted_sets.zrangebyscore d.running_stack_scans key_running_stack_scans
            (cutoff now max_age))
    tally (recover_stack_scan max_age now) ids 0

  abbrev drop_pending : String → Script r Unit
  drop_pending id =
      command λ d. record d { pending = r.sets.srem d.pending key_stack_scan_pending id }

  -- The body of RecoverOrphanedStackScans's loop.
  unfoldable pub recover_orphan : String → Exec r ℕ
  recover_orphan id =
      examine (get_stack_scan id) (λ _. do ignore (call (drop_pending id)); pure 0)
        λ ss.
          if not (ss.status == pending) then (do ignore (call (drop_pending id)); pure 0) else do
            ignore (
                call (
                  command λ d. record d {
                    inflight = (r.ids.setnx d.inflight (inflight_of ss) ss.id retention).1;
                  }))
            examine (call (push ss.id)) (λ _. pure 0) (λ _. pure 1)

  -- The pages of SSCAN come one after another; here all members are one page.
  unfoldable pub recover_orphaned_stack_scans : Exec r ℕ
  recover_orphaned_stack_scans = do
    ids ← call (read λ d. r.sets.smembers d.pending key_stack_scan_pending)
    tally recover_orphan ids 0

-- ===== src/Queue/Renewal.antt =====
-- internal/queue/scan_store.go: RenewScanLock, the loop that keeps a scan's lock alive.
-- Durations are in milliseconds; one that is not positive is 0.
use driftd.Prelude.{
  ℕ, ◌/◌, ltb, nat_eq, String, Bool, true, false, some, List, [], ◌∷◌, ◌==◌, if◌then◌else◌, pure,
  examine, ◌>>=◌, ◌>>◌, ignore, cases,
}
use driftd.Redis.{Redis, Cell}
use driftd.Queue.Types.{StackScan, running, text_of}
use driftd.Queue.Store.{Exec, call, read}
use driftd.Queue.Locks.{renew_script}
use driftd.Queue.Endings.{fail_scan}

-- 6 * time.Hour when no age is configured.
abbrev pub effective_max_age : ℕ → ℕ
effective_max_age max_age = if nat_eq max_age 0 then 21_600_000 else max_age

-- The time between two renewals, at least scanRenewIntervalMin.
unfoldable pub renew_interval : ℕ → ℕ → ℕ
renew_interval lock_ttl renew_every =
    let interval = if nat_eq renew_every 0 then lock_ttl / 3 else renew_every in
    if ltb interval 10_000 then 10_000 else interval

-- A tick: how long the loop has run, and the clock.
abbrev pub Tick : Type 0
Tick = ℕ × ℕ

module _ {r : Redis StackScan} where
  -- Renewing goes on after a failed call, and stops when the lock is not the scan's.
  unfoldable pub try_renew : String → String → ℕ → Exec r Bool
  try_renew scan_id project lock_ttl =
      examine (call (renew_script project scan_id lock_ttl)) (λ _. pure true) pure

  unfoldable pub renew_if_running : String → String → ℕ → Cell → Exec r Bool
  renew_if_running scan_id project lock_ttl c =
      if text_of (some c) == running then try_renew scan_id project lock_ttl else pure false

  -- A tick within the age: the status is read first, and a failed read is passed over.
  unfoldable pub renew_running : String → String → ℕ → Exec r Bool
  renew_running scan_id project lock_ttl =
      examine (call (read λ d. r.hashes.hget d.scans scan_id "status")) (λ _. pure true)
        λ status. cases status (pure false) (renew_if_running scan_id project lock_ttl)

  -- One tick; the answer says whether the loop goes on.
  unfoldable pub renew_tick : String → String → ℕ → ℕ → Tick → Exec r Bool
  renew_tick scan_id project lock_ttl max_age (elapsed, now) =
      if ltb max_age elapsed
      then (do ignore (fail_scan scan_id project "scan exceeded maximum duration" now); pure false)
      else renew_running scan_id project lock_ttl

  -- The loop, until the context is done after the given ticks. Every tick leaves a result.
  unfoldable pub renew_loop : String → String → ℕ → ℕ → List Tick → Exec r Unit
  renew_loop scan_id project lock_ttl max_age [] = pure tt
  renew_loop scan_id project lock_ttl max_age (t ∷ ts) = do
    on ← renew_tick scan_id project lock_ttl max_age t
    if on then renew_loop scan_id project lock_ttl max_age ts else pure tt

  -- RenewScanLock
  unfoldable pub renew_scan_lock : String → String → ℕ → ℕ → List Tick → Exec r Unit
  renew_scan_lock scan_id project lock_ttl max_age ts =
      renew_loop scan_id project lock_ttl (effective_max_age max_age) ts

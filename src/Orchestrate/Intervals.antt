-- ===== src/Orchestrate/Intervals.antt =====
-- How often the locks are renewed, against how long they live.
use driftd.Prelude.{ℕ, ◌<◌, ◌≤◌, arith}
use driftd.Queue.Renewal.{renew_interval}
use driftd.Orchestrate.{clone_lock_renew_every}

-- A project lock that lives longer than 10 seconds, and longer than the configured interval, is
-- renewed at least once in its life, and at most every 10 seconds.
pub renew_interval-bounds :
    (lock_ttl renew_every : ℕ)
    → 10_000 < lock_ttl
    → renew_every < lock_ttl
    → (10_000 ≤ renew_interval lock_ttl renew_every)
      × (renew_interval lock_ttl renew_every < lock_ttl)
unfolding renew_interval
renew_interval-bounds lock_ttl renew_every h k = (ground arith, ground arith)

-- A clone lock that lives longer than 5 seconds is renewed within its life, whatever interval is
-- configured, and not without pause.
pub clone_lock_renew_every-bounds :
    (renew_every ttl : ℕ)
    → 5000 < ttl
    → (0 < clone_lock_renew_every renew_every ttl) × (clone_lock_renew_every renew_every ttl < ttl)
unfolding clone_lock_renew_every
clone_lock_renew_every-bounds renew_every ttl h = (ground arith, ground arith)

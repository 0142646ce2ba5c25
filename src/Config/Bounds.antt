-- ===== src/Config/Bounds.antt =====
-- What the settings of an accepted configuration (internal/config/config.go) guarantee.
use driftd.Prelude.{
  pos, pos_part, ◌≤ℤ◌, ◌≤◌, ◌*◌, Bool, true, false, List, ◌≡◌, refl, subst, ◌&&◌, Result, ok, err,
  rejected, Bool-cases, inl, inr, arith,
}
use driftd.Config.{Config, WorkerConfig, ProjectConfig}
use driftd.Config.Projects.{expand_monorepos}
use driftd.Config.Defaults.{
  second, worker_defaults, worker_valid, webhook_valid, with_defaults, with_projects, valid,
  apply_defaults,
}

-- The bounds that the rest of the program counts on.
abbrev pub Sane : WorkerConfig → Type 0
Sane w =
    (pos 1 ≤ℤ w.concurrency)
    × (pos 1 ≤ℤ w.clone_depth)
    × (w.clone_depth ≤ℤ pos 1000)
    × (pos second ≤ℤ w.stack_timeout)
    × (pos (120 * second) ≤ℤ w.lock_ttl)
    × (pos (10 * second) ≤ℤ w.renew_every)
    × (2 * pos_part w.renew_every ≤ pos_part w.lock_ttl)

-- The same of a configuration, with its webhook.
abbrev pub SaneConfig : Config → Type 0
SaneConfig d = Sane d.worker × (webhook_valid d.webhook ≡ true)

concurrency-positive : (w : WorkerConfig) → pos 1 ≤ℤ (worker_defaults w).concurrency
unfolding worker_defaults
concurrency-positive w = ground arith

valid-Sane : (w : WorkerConfig) → worker_valid (worker_defaults w) ≡ true → Sane (worker_defaults w)
unfolding worker_valid
valid-Sane w e = (
  concurrency-positive w,
  ground arith,
  ground arith,
  ground arith,
  ground arith,
  ground arith,
  ground arith,
)

-- A configuration is accepted only with at least one worker, a clone depth from 1 to 1000, a time
-- for a stack of at least a second, a lock that lives for at least 2 minutes and is renewed at
-- least every half of its life, but not more often than every 10 seconds, and a webhook that has
-- a secret or a token if it is on; all this after the defaults are filled in.
pub apply_defaults-Sane : (c d : Config) → apply_defaults c ≡ ok d → SaneConfig d
unfolding apply_defaults with_defaults
apply_defaults-Sane c d e = elim (Bool-cases (valid (with_defaults c))) [
  | inl h ↦ go (expand_monorepos c.projects) h (rw h at e)
  | inr h ↦ absurd (refused (rw h at e))
]
  where
    refused : {x : Config} → ¬ (err rejected ≡ ok x)
    refused x = cc

    go :
        (x : Result (List ProjectConfig))
        → valid (with_defaults c) ≡ true
        → with_projects (with_defaults c) x ≡ ok d
        → SaneConfig d
    go (err x) h e = cc
    go (ok ps) h e =
        let same : record (with_defaults c) { projects = ps } ≡ d = cc in
        subst SaneConfig same (valid-Sane c.worker (left _ _ (left _ _ h)), right _ _ (left _ _ h))
      where
        left : (a b : Bool) → (a && b) ≡ true → a ≡ true
        left true b h = refl
        left false b h = h

        right : (a b : Bool) → (a && b) ≡ true → b ≡ true
        right true b h = h
        right false b h = cc

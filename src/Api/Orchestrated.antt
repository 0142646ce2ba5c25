-- ===== src/Api/Orchestrated.antt =====
-- internal/api/scan_service.go: the scanner of the handlers is internal/orchestrate over internal/queue.
use driftd.Prelude.{ℕ, String, Bool, List, [], ◌∷◌, Error}
use driftd.Redis.{Redis}
use driftd.Config.{ProjectConfig, cancel_inflight_enabled}
use driftd.Queue.Types.{StackScan}
use driftd.Queue.Store.{Store}
use driftd.Queue.Lookups.{get_active_scan}
use driftd.Queue.Endings.{fail_scan}
use driftd.Orchestrate.{Outside, Clock}
use driftd.Orchestrate as Orchestrate
use driftd.Orchestrate.Lifecycle.{start_scan, enqueue_stacks}
use driftd.Api.Scans.{Scanner}

-- What the orchestrator reads around the queue, for each project: the answers of git, the clock, the
-- random numbers of the stacks' ids, and the settings of the workers.
pub record Surroundings : Type 0 where
  pub outside : ProjectConfig → Outside
  pub clock : ProjectConfig → Clock
  pub salt : String → ℕ
  pub now : ℕ
  pub lock_ttl : ℕ
  pub clone_ttl : ℕ
  pub retry_once : Bool
  pub said : Error → String

-- What StartScan reads of a configuration.
abbrev pub read_config : ProjectConfig → Orchestrate.ProjectConfig
read_config p = record { name = p.name; url = p.url; cancel_inflight = cancel_inflight_enabled p }

abbrev pub salted : (String → ℕ) → List String → List (String × ℕ)
salted salt [] = []
salted salt (s ∷ ss) = (s, salt s) ∷ salted salt ss

abbrev pub queue_scanner : {r : Redis StackScan} → Surroundings → Scanner (Store r)
queue_scanner a = record {
  start_scan = λ p q. start_scan (a.outside p) (read_config p) a.lock_ttl a.clone_ttl q (a.clock p);
  enqueue_stacks = λ scan p stacks q.
      enqueue_stacks a.retry_once a.said scan (read_config p) q (salted a.salt stacks) a.now;
  fail_scan = λ id name msg. fail_scan id name msg a.now;
  get_active_scan = get_active_scan;
}

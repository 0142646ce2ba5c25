-- ===== src/Api/Scans/Traces.antt =====
-- The calls that the handlers of internal/api make of the orchestrator, in their order, whatever it answers.
use driftd.Prelude.{String, List, [], ◌∷◌, ◌≡◌, Result, ok, err}
use driftd.Config.{ProjectConfig}
use driftd.Queue.Types.{Scan}
use driftd.Orchestrate.Lifecycle.{Request}
use driftd.Api.Scans.{Scanner}

pub data Call : Type 0 where
  -- StartScan has answered a scan with its stacks
  started : ProjectConfig → Request → Scan → List String → Call
  -- EnqueueStacks and FailScan are called
  enqueued : Scan → ProjectConfig → List String → Request → Call
  failed : String → String → String → Call

-- The state with the calls so far, the last first.
abbrev pub Logged : Type 0 → Type 0
Logged S = S × List Call

module _ {S : Type 0} where
  abbrev pub log_start :
      ProjectConfig
      → Request
      → List Call
      → Result (Scan × List String) × S
      → Result (Scan × List String) × Logged S
  log_start cfg q l (ok (scan, stacks), s) = (ok (scan, stacks), (s, started cfg q scan stacks ∷ l))
  log_start cfg q l (err e, s) = (err e, (s, l))

  abbrev pub log_call : {A : Type 0} → Call → List Call → Result A × S → Result A × Logged S
  log_call c l (x, s) = (x, (s, c ∷ l))

  -- The scanner that also writes down what it is called for.
  abbrev pub logged : Scanner S → Scanner (Logged S)
  logged sc = record {
    start_scan = λ cfg q (s, l). log_start cfg q l (sc.start_scan cfg q s);
    enqueue_stacks = λ scan cfg stacks q (s, l).
        log_call (enqueued scan cfg stacks q) l (sc.enqueue_stacks scan cfg stacks q s);
    fail_scan = λ id name msg (s, l). log_call (failed id name msg) l (sc.fail_scan id name msg s);
    get_active_scan =
        λ name (s, l). ((sc.get_active_scan name s).0, ((sc.get_active_scan name s).1, l));
  }

-- What becomes of a scan of a project that is allowed: it fails if none of its stacks is picked, and
-- goes on with those that are.
abbrev pub Settles :
    (ProjectConfig → Request → Type 0) → (List String → List String) → Call → Call → Type 0
Settles Allowed pick (failed id name msg) (started cfg q scan stacks) =
    Allowed cfg q × (id ≡ scan.id) × (name ≡ cfg.name) × (pick stacks ≡ [])
Settles Allowed pick (enqueued scan2 cfg2 stacks2 q2) (started cfg q scan stacks) =
    Allowed cfg q
    × (scan2 ≡ scan)
    × (cfg2 ≡ cfg)
    × (q2 ≡ q)
    × (stacks2 ≡ pick stacks)
    × ((stacks2 ≡ []) → ⊥)
Settles Allowed pick c d = ⊥

-- Every scan that was started was settled next, and nothing else was called.
abbrev pub Settled :
    (ProjectConfig → Request → Type 0) → (List String → List String) → List Call → Type 0
Settled Allowed pick [] = Unit
Settled Allowed pick (c ∷ []) = ⊥
Settled Allowed pick (c ∷ d ∷ l) = Settles Allowed pick c d × Settled Allowed pick l

-- ===== src/Queue/Store.antt =====
-- The state that internal/queue keeps in Redis, a field for each family of keys of keys.go, and
-- the calls that reach it. A call is one round trip: a command, a pipeline or a Lua script. The
-- schedule `faults` says how the next calls fare; after its last entry all are served.
use driftd.Prelude.{String, List, [], ◌∷◌, Result, ok, err, redis_error, Action, ◌≡◌, ap}
use driftd.Redis.{Redis}
use driftd.Queue.Types.{StackScan, ProjectEvent}

pub record Db (r : Redis StackScan) : Type 0 where
  -- driftd:lock:project:, project name to scan id
  pub locks : r.ids.Rep
  -- driftd:lock:clone:, URL hash to owner
  pub clone_locks : r.ids.Rep
  -- driftd:scan:, scan id to the fields of the scan
  pub scans : r.hashes.Rep
  -- driftd:scan:project:, project name to the id of its active scan
  pub actives : r.ids.Rep
  -- driftd:scan:last:, project name to the id of its last scan
  pub lasts : r.ids.Rep
  -- driftd:scan:running, scan ids by start
  pub running_scans : r.sorted_sets.Rep
  -- driftd:scan:stack_scans:, scan id to the ids of its stack scans
  pub scan_stack_scans : r.sets.Rep
  -- driftd:stack_scan:, stack scan id to its document
  pub stack_scans : r.docs.Rep
  -- driftd:stack_scan:inflight:, project and stack path to a stack scan id
  pub inflight : r.ids.Rep
  -- driftd:stack_scan:pending, stack scan ids
  pub pending : r.sets.Rep
  -- driftd:claim:, stack scan id to worker id
  pub claims : r.ids.Rep
  -- driftd:stack_scans:project:, project name to stack scan ids
  pub project_stack_scans : r.sets.Rep
  -- driftd:stack_scans:project:ordered:, the same by creation
  pub project_ordered : r.sorted_sets.Rep
  -- driftd:stack_scans:running, stack scan ids by start
  pub running_stack_scans : r.sorted_sets.Rep
  -- driftd:queue:workitems
  pub work : r.lists.Rep
  -- driftd:events:, what was published, the last first
  pub published : List ProjectEvent

-- The keys of the families that have one key.
abbrev pub key_running_scans : String
key_running_scans = "driftd:scan:running"

abbrev pub key_stack_scan_pending : String
key_stack_scan_pending = "driftd:stack_scan:pending"

abbrev pub key_running_stack_scans : String
key_running_stack_scans = "driftd:stack_scans:running"

-- How a round trip fares: it is served; it never reaches the server; it is served and the reply
-- is lost.
pub data Fault : Type 0 where
  served refused lost : Fault

pub record Store (r : Redis StackScan) : Type 0 where
  pub db : Db r
  pub faults : List Fault

-- What the server does as one step.
abbrev pub Script : Redis StackScan → Type 0 → Type 0
Script r A = Action (Db r) A

-- What a Go function does.
abbrev pub Exec : Redis StackScan → Type 0 → Type 0
Exec r A = Action (Store r) A

module _ {r : Redis StackScan} where
  -- The server as a client sees it when every call is served.
  abbrev pub online : Db r → Store r
  online d = record { db = d; faults = [] }

  abbrev pub reply : {A : Type 0} → Result A × Db r → List Fault → Result A × Store r
  reply (x, d) fs = (x, record { db = d; faults = fs })

  abbrev pub send : {A : Type 0} → List Fault → Script r A → Db r → Result A × Store r
  send [] c d = reply (c d) []
  send (served ∷ fs) c d = reply (c d) fs
  send (refused ∷ fs) c d = (err redis_error, record { db = d; faults = fs })
  send (lost ∷ fs) c d = (err redis_error, record { db = (c d).1; faults = fs })

  -- One round trip.
  unfoldable pub call : {A : Type 0} → Script r A → Exec r A
  call c s = send s.faults c s.db

  -- A command that answers nothing that is read.
  abbrev pub command : (Db r → Db r) → Script r Unit
  command f d = (ok tt, f d)

  -- A command that only reads.
  abbrev pub read : {A : Type 0} → (Db r → A) → Script r A
  read f d = (ok (f d), d)

  pub call-online :
      {A : Type 0} (c : Script r A) {d d' : Db r} {x : Result A}
      → c d ≡ (x, d')
      → call c (online d) ≡ (x, online d')
  unfolding call
  call-online c e = ap (λ p. reply p []) e

-- ===== src/Queue/StackScans/Listing.antt =====
-- internal/queue/stack_scan_store.go: the stack scans of a project, the newest first; and the readings of
-- scan_metrics.go. ZREVRANGE, ZCARD and ZRANGE WITHSCORES are parameters: a range by rank from the
-- end, a count, and the first score.
use driftd.Prelude.{
  ℕ, suc, ◌-◌, ltb, ℤ, pos, negsuc, ◌+◌, String, Option, none, some, List, [], ◌∷◌, if◌then◌else◌,
  pure, ◌>>=◌,
}
use driftd.Redis.{Redis}
use driftd.Queue.Types.{StackScan}
use driftd.Queue.Store.{Db, Exec, call, read, key_running_scans, key_running_stack_scans}

-- The last rank that is read; -1, which is the end, without a limit.
abbrev stop_of : ℕ → Option ℕ
stop_of limit = if ltb 0 limit then some (limit - 1) else none

-- The age of a start in seconds; `now - s` stops at 0, as the code does for a start in the future.
abbrev age_of : ℕ → Option ℤ → ℕ
age_of now none = 0
age_of now (some (pos s)) = now - s
age_of now (some (negsuc s)) = now + suc s

module _ {r : Redis StackScan} (zrevrange : r.sorted_sets.Rep → String → Option ℕ → List String)
    (zcard : r.sorted_sets.Rep → String → ℕ) (zfirst : r.sorted_sets.Rep → String → Option ℤ) where
  -- The documents that are there still.
  abbrev found_docs : Db r → List String → List StackScan
  found_docs d [] = []
  found_docs d (id ∷ ids) = with_doc (r.docs.get d.stack_scans id) (found_docs d ids)
    where
      with_doc : Option StackScan → List StackScan → List StackScan
      with_doc none rest = rest
      with_doc (some ss) rest = ss ∷ rest

  -- A pipeline of GETs.
  abbrev fetch_docs : List String → Exec r (List StackScan)
  fetch_docs [] = pure []
  fetch_docs (id ∷ ids) = call (read λ d. found_docs d (id ∷ ids))

  unfoldable pub list_project_stack_scans : String → ℕ → Exec r (List StackScan)
  list_project_stack_scans project limit =
      call (read λ d. zrevrange d.project_ordered project (stop_of limit)) >>= fetch_docs

  unfoldable pub running_stack_scan_count : Exec r ℕ
  running_stack_scan_count = call (read λ d. zcard d.running_stack_scans key_running_stack_scans)

  unfoldable pub running_scan_count : Exec r ℕ
  running_scan_count = call (read λ d. zcard d.running_scans key_running_scans)

  unfoldable pub oldest_running_stack_scan_age : ℕ → Exec r ℕ
  oldest_running_stack_scan_age now =
      call (read λ d. age_of now (zfirst d.running_stack_scans key_running_stack_scans))

  unfoldable pub oldest_running_scan_age : ℕ → Exec r ℕ
  oldest_running_scan_age now =
      call (read λ d. age_of now (zfirst d.running_scans key_running_scans))

-- ===== src/Queue/Recovery/Index.antt =====
-- internal/queue/scan_recovery.go: RebuildRunningScansIndex, which the recovery loop of the worker runs first.
pub mod Scores
use driftd.Prelude.{
  ℕ, ◌+◌, ℤ, pos, eq_ℤ, String, Bool, true, false, Option, none, some, List, [], ◌∷◌, ◌++◌, ◌==◌,
  ◌≡◌, refl, sym, ap, ◌∙◌, not, ◌&&◌, ◌||◌, if◌then◌else◌, elem, or_else, ok, after, pure, examine,
  ◌>>=◌, >>=-ok, examine-ok, resume, Bool-cases, inl, inr, arith, eq_iff, eq_refl, subst,
}
use driftd.Redis.{Redis}
use driftd.Queue.Types.{StackScan, running, text_of, to_int}
use driftd.Queue.Store.{Db, Exec, Script, online, call, read, key_running_scans}
use driftd.Queue.Recovery.{tally}

-- The keys of the pages.
abbrev pub all_keys : List (List String) → List String
all_keys [] = []
all_keys (page ∷ pages) = page ++ all_keys pages

module _ {r : Redis StackScan} where
  -- HMGET of the status and the start
  abbrev read_start : String → Script r (String × ℤ)
  read_start id = read λ d.
      (text_of (r.hashes.hget d.scans id "status"), to_int (r.hashes.hget d.scans id "started_at"))

  abbrev pub added_or : Option ℤ → String → ℤ → Script r Bool
  added_or (some s) id z d = (ok false, d)
  added_or none id z d = (
    ok true,
    record d { running_scans = r.sorted_sets.zadd d.running_scans key_running_scans id z },
  )

  -- ZADD NX
  abbrev pub zadd_nx : String → ℤ → Script r Bool
  zadd_nx id z d = added_or (r.sorted_sets.zscore d.running_scans key_running_scans id) id z d

  -- One key of a page, without its prefix: 1 if the scan is new in the index, else 0.
  unfoldable pub index_scan : String → Exec r ℕ
  index_scan id =
      examine (call (read_start id)) (λ _. pure 0)
        λ (status, started).
          if not (status == running) || eq_ℤ started (pos 0)
          then pure 0
          else (examine (call (zadd_nx id started)) (λ _. pure 0)
              λ added. pure (if added then 1 else 0))

  -- The pages that SCAN answers; the count comes with them.
  unfoldable pub rebuild_running_scans_index : List (List String) → ℕ → Exec r ℕ
  rebuild_running_scans_index [] n = pure n
  rebuild_running_scans_index (page ∷ pages) n = call (read λ _. page) >>= λ ids.
      (tally index_scan ids n >>= λ k. rebuild_running_scans_index pages k)

  -- The scan is not recorded as running, or has no start.
  abbrev pub passed_over : Db r → String → Bool
  passed_over d id =
      not (text_of (r.hashes.hget d.scans id "status") == running)
      || eq_ℤ (to_int (r.hashes.hget d.scans id "started_at")) (pos 0)

  abbrev pub start_of : Db r → String → ℤ
  start_of d id = to_int (r.hashes.hget d.scans id "started_at")

  abbrev pub score : Db r → String → Option ℤ
  score d id = r.sorted_sets.zscore d.running_scans key_running_scans id

-- ===== src/Queue/Lookups.antt =====
-- internal/queue/scan_store.go: the reads of a scan and the writes of its details.
use driftd.Prelude.{
  ℤ, String, List, [], ◌∷◌, Result, ok, err, raise, lift, scan_not_found, ◌>>=◌, cases,
}
use driftd.Redis.{Redis, Cell, text, num, versions}
use driftd.Queue.Types.{StackScan, Scan, scan_from_hash}
use driftd.Queue.Store.{Script, Exec, call, command, read}

-- len(values) == 0 is a missing hash.
abbrev pub scan_of_values : List (String × Cell) → Result Scan
scan_of_values [] = err scan_not_found
scan_of_values (v ∷ vs) = ok (scan_from_hash (v ∷ vs))

module _ {r : Redis StackScan} where
  unfoldable pub get_scan : String → Exec r Scan
  get_scan scan_id = do
    values ← call (read λ d. r.hashes.hgetall d.scans scan_id)
    lift (scan_of_values values)

  -- A nil pointer is ErrScanNotFound.
  unfoldable pub get_active_scan : String → Exec r Scan
  get_active_scan project = do
    pointer ← call (read λ d. r.ids.get d.actives project)
    cases pointer (raise scan_not_found) get_scan

  unfoldable pub get_last_scan : String → Exec r Scan
  get_last_scan project = do
    pointer ← call (read λ d. r.ids.get d.lasts project)
    cases pointer (raise scan_not_found) get_scan

  abbrev pub hset_scan : String → List (String × Cell) → Script r Unit
  hset_scan scan_id fs = command λ d. record d { scans = r.hashes.hset d.scans scan_id fs }

  unfoldable pub set_scan_versions :
      String → String → String → List (String × String) → List (String × String) → Exec r Unit
  set_scan_versions scan_id tf tg stack_tf stack_tg = call (
      hset_scan scan_id (
        ("tf_version", text tf)
        ∷ ("tg_version", text tg)
        ∷ ("stack_tf", versions stack_tf)
        ∷ ("stack_tg", versions stack_tg)
        ∷ []))

  unfoldable pub set_scan_total : String → ℤ → Exec r Unit
  set_scan_total scan_id total =
      call (hset_scan scan_id (("total", num total) ∷ ("queued", num total) ∷ []))

  unfoldable pub set_scan_workspace : String → String → String → Exec r Unit
  set_scan_workspace scan_id path sha =
      call (hset_scan scan_id (("workspace", text path) ∷ ("commit_sha", text sha) ∷ []))

  unfoldable pub attach_stack_scan_to_scan : String → String → Exec r Unit
  attach_stack_scan_to_scan scan_id id =
      call (command λ d. record d { scan_stack_scans = r.sets.sadd d.scan_stack_scans scan_id id })

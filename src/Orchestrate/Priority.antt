-- ===== src/Orchestrate/Priority.antt =====
-- StartScan of a project that is locked.
use driftd.Prelude.{
  ℕ, leb, ◌<◌, pos, String, Bool, true, false, none, some, [], ◌≡◌, ◌⊎◌, inl, inr, refl, Bool-cases,
  arith, ok, err, Error, project_locked, result, after, examine, examine-ok, examine-err, ◌>>=◌,
  pure, raise, lift, cases, ◌∙◌, ap, sym, subst, Result, if◌then◌else◌, Option,
}
use driftd.Redis.{Redis}
use driftd.Queue.Types.{StackScan, Scan}
use driftd.Queue.Store.{Db, online, call}
use driftd.Queue.Lookups.{get_scan, get_active_scan}
use driftd.Queue.Scans.Starting.{held_run}
use driftd.Orchestrate.{ProjectConfig, Clock, trigger_priority, acquire_scan, take_over, outrank}

module _ {r : Redis StackScan} where
  read_scan : (d : Db r) (id : String) → (get_scan id (online d)).1 ≡ online d
  unfolding get_scan ◌>>=◌ call
  read_scan d id = refl

  pub read_active :
      (d : Db r) (project : String) → (get_active_scan project (online d)).1 ≡ online d
  unfolding get_active_scan ◌>>=◌ cases call
  read_active d project = go (r.ids.get d.actives project)
    where
      go :
          (o : Option String)
          → (cases o (raise driftd.Prelude.scan_not_found) (get_scan {r = r}) (online d)).1
            ≡ online d
      go none = refl
      go (some id) = read_scan d id

  -- While a scan holds the project's lock, StartScan answers that the project is locked and
  -- changes nothing, if scans in flight are not to be canceled or the active scan's trigger comes
  -- before the new one's.
  pub acquire_scan-locked :
      (cfg : ProjectConfig) (lock_ttl : ℕ) (trigger commit actor : String) (t : Clock) (d : Db r)
      (a : Scan) {owner : String}
      → r.ids.get d.locks cfg.name ≡ some owner
      → result (get_active_scan cfg.name) (online d) ≡ ok a
      → (cfg.cancel_inflight ≡ false) ⊎ (trigger_priority trigger < trigger_priority a.trigger)
      → acquire_scan cfg lock_ttl trigger commit actor t (online d) ≡ (err project_locked, online d)
  unfolding acquire_scan take_over outrank raise
  acquire_scan-locked cfg lock_ttl trigger commit actor t d a h ra c =
      let read : get_active_scan cfg.name (online d) ≡ (ok a, online d) =
        λ i. (ra i, read_active d cfg.name i) in
      let start =
        held_run cfg.name trigger commit actor lock_ttl t.id_at t.started (pos 0) d [] h in
      examine-err _ _ _ start ∙ elim (Bool-cases cfg.cancel_inflight) [
        | inr n ↦ rw n refl
        | inl y ↦ rw y (examine-ok (get_active_scan cfg.name) _ _ read ∙ rw (stays y c) refl)
      ]
    where
      stays :
          cfg.cancel_inflight ≡ true
          → (cfg.cancel_inflight ≡ false) ⊎ (trigger_priority trigger < trigger_priority a.trigger)
          → leb (trigger_priority a.trigger) (trigger_priority trigger) ≡ false
      stays y (inl n) = ground arith
      stays y (inr lt) = ground arith

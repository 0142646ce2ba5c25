-- ===== src/Queue/Scans/Superseding.antt =====
-- What CancelAndStartScan leaves, whether the old scan holds the lock or not.
use driftd.Prelude.{
  ◌*◌, is_ok, ◌>>=◌, ℕ, ℤ, pos, String, true, false, List, [], ◌∷◌, ◌==◌, ◌≡◌, refl, ok, none, some,
  after, result, holds, ◌∙◌, >>=-ok, examine-ok, ignore_lem, eq_refl, ap, sym, subst, pure, raise,
}
use driftd.Redis.{Redis, text, num}
use driftd.Queue.Types.{StackScan, canceled, unix, ProjectEvent}
use driftd.Queue.Store.{
  Store, Fault, served, refused, lost, call, Db, online, call-online, key_running_scans,
}
use driftd.Queue.Keys.{scan_id_of}
use driftd.Queue.Events.{publish_scan_event}
use driftd.Queue.Events.Quiet.{publish_scan_event-online}
use driftd.Queue.Scans.RoundTrip.{get_scan-written}
use driftd.Queue.Scans.Starting.{the_scan, Started}
use driftd.Queue.Scans.{
  cancel_and_acquire, replace_pipeline, cancel_and_start_scan, ended_event, clip, retention,
  new_scan,
}

module _ (project old_id reason trigger commit actor : String) (ttl id_at now : ℕ) (total : ℤ) where
  abbrev new_id : String
  new_id = scan_id_of project id_at

  -- The old scan is canceled: its status, end and error say so, it is the last scan, and it is not indexed.
  pub record Replaced {r : Redis StackScan} (d : Db r) : Type 0 where
    pub status : r.hashes.hget d.scans old_id "status" ≡ some (text canceled)
    pub ended : r.hashes.hget d.scans old_id "ended_at" ≡ some (num (pos (unix id_at)))
    pub why : r.hashes.hget d.scans old_id "error" ≡ some (text reason)
    pub last : r.ids.get d.lasts project ≡ some old_id
    pub unindexed : r.sorted_sets.zscore d.running_scans key_running_scans old_id ≡ none

  module _ {r : Redis StackScan} where
    -- The data after the script.
    abbrev acquired : Db r → Db r
    acquired d = record d {
      scans = r.hashes.hset d.scans old_id (
          ("status", text canceled)
          ∷ ("ended_at", num (pos (unix id_at)))
          ∷ ("error", text reason)
          ∷ []);
      running_scans = r.sorted_sets.zrem d.running_scans key_running_scans old_id;
      lasts = r.ids.set d.lasts project old_id retention;
      locks = r.ids.set d.locks project new_id ttl;
      actives = r.ids.set d.actives project new_id retention;
    }

    acquire_run :
        (d : Db r)
        → r.ids.get d.locks project ≡ some old_id
        → cancel_and_acquire project old_id new_id ttl (unix id_at) reason d ≡ (ok true, acquired d)
    unfolding cancel_and_acquire
    acquire_run d h = rw (h, eq_refl old_id) refl

    abbrev finished : List ProjectEvent → Db r → Db r
    finished l d =
        replace_pipeline (the_scan project trigger commit actor ttl id_at now total)
          (record (acquired d) { published = l })

    supersede_run :
        (d : Db r)
        → r.ids.get d.locks project ≡ some old_id
        → (l : List ProjectEvent) × (cancel_and_start_scan ttl old_id project reason trigger commit
              actor total id_at now
              (online d)
            ≡ (
              ok (the_scan project trigger commit actor ttl id_at now total),
              online (finished l d),
            ))
    unfolding cancel_and_start_scan pure
    supersede_run d h =
        let event = ended_event project old_id canceled (unix id_at * 1_000_000_000) in
        let (l, quiet) = publish_scan_event-online project now event (acquired d) in
        (
          l,
          >>=-ok _ _ (call-online _ (acquire_run d h))
              ∙ >>=-ok _ _ (
                  ignore_lem (publish_scan_event project now event) (online (acquired d))
                  ∙ ap (λ p. (ok tt, p.1)) quiet)
              ∙ examine-ok _ _ _ (call-online _ refl),
        )

    finished-Started :
        (l : List ProjectEvent) (d : Db r)
        → Started project trigger commit actor ttl id_at now total (finished l d)
    unfolding replace_pipeline new_scan
    finished-Started l d = record {
      locked = rw (r.ids.get-set d.locks project new_id ttl project, eq_refl project) refl;
      active = rw (r.ids.get-set d.actives project new_id retention project, eq_refl project) refl;
      indexed =
          rw
            (
              r.sorted_sets.zscore-zadd
                  (r.sorted_sets.zrem d.running_scans key_running_scans old_id) key_running_scans
                  new_id _ key_running_scans new_id,
              eq_refl new_id,
            )
            refl;
      readable =
          get_scan-written new_id project trigger commit actor (clip total) now
            (record (acquired d) { running_scans = _; published = l });
    }

    finished-Replaced :
        (l : List ProjectEvent) (d : Db r) → (new_id == old_id) ≡ false → Replaced (finished l d)
    unfolding replace_pipeline new_scan
    finished-Replaced l d ne = record {
      status =
          rw
            (
              r.hashes.hget-hset (acquired d).scans new_id _ old_id "status",
              ne,
              r.hashes.hget-hset d.scans old_id _ old_id "status",
              eq_refl old_id,
            )
            refl;
      ended =
          rw
            (
              r.hashes.hget-hset (acquired d).scans new_id _ old_id "ended_at",
              ne,
              r.hashes.hget-hset d.scans old_id _ old_id "ended_at",
              eq_refl old_id,
            )
            refl;
      why =
          rw
            (
              r.hashes.hget-hset (acquired d).scans new_id _ old_id "error",
              ne,
              r.hashes.hget-hset d.scans old_id _ old_id "error",
              eq_refl old_id,
            )
            refl;
      last = rw (r.ids.get-set d.lasts project old_id retention project, eq_refl project) refl;
      unindexed =
          rw
            (
              r.sorted_sets.zscore-zadd (acquired d).running_scans key_running_scans new_id _
                  key_running_scans old_id,
              ne,
              r.sorted_sets.zscore-zrem d.running_scans key_running_scans old_id key_running_scans
                  old_id,
              eq_refl old_id,
            )
            refl;
    }

    locked_run :
        (d : Db r) (fs : List Fault)
        → holds (r.ids.get d.locks project) old_id ≡ false
        → let run =
            cancel_and_start_scan ttl old_id project reason trigger commit actor total id_at now
              (record { db = d; faults = fs }) in
          (run.1.db ≡ d) × (is_ok run.0 ≡ false)
    unfolding cancel_and_start_scan cancel_and_acquire raise ◌>>=◌ call
    locked_run d [] h = rw h (refl, refl)
    locked_run d (served ∷ fs) h = rw h (refl, refl)
    locked_run d (refused ∷ fs) h = (refl, refl)
    locked_run d (lost ∷ fs) h = rw h (refl, refl)

    -- While the old scan does not hold the project's lock, CancelAndStartScan fails and changes
    -- nothing, however the calls fare.
    pub cancel_and_start_scan-locked :
        (s : Store r)
        → holds (r.ids.get s.db.locks project) old_id ≡ false
        → let m =
            cancel_and_start_scan ttl old_id project reason trigger commit actor total id_at now in
          ((after m s).db ≡ s.db) × (is_ok (result m s) ≡ false)
    cancel_and_start_scan-locked s h = locked_run s.db s.faults h

    -- If the old scan holds the project's lock, the new id is another one and every call is served,
    -- CancelAndStartScan cancels the old scan and starts the new one in its place, which GetScan
    -- reads with its times cut to whole seconds and an end in 1970.
    pub cancel_and_start_scan-Replaced :
        (d : Db r)
        → r.ids.get d.locks project ≡ some old_id
        → (scan_id_of project id_at == old_id) ≡ false
        → let m =
            cancel_and_start_scan ttl old_id project reason trigger commit actor total id_at now in
          (result m (online d) ≡ ok (the_scan project trigger commit actor ttl id_at now total))
          × Started project trigger commit actor ttl id_at now total (after m (online d)).db
          × Replaced (after m (online d)).db
    cancel_and_start_scan-Replaced d h ne =
        let (l, run) = supersede_run d h in
        (
          ap (λ p. p.0) run,
          subst (λ p. Started project trigger commit actor ttl id_at now total p.1.db) (sym run)
              (finished-Started l d),
          subst (λ p. Replaced p.1.db) (sym run) (finished-Replaced l d ne),
        )

-- ===== src/Queue/Scans/Starting.antt =====
-- What StartScan leaves, on each of its branches.
use driftd.Prelude.{
  if◌then◌else◌, Bool, true, ℕ, ℤ, pos, String, false, List, [], ◌∷◌, ◌≡◌, refl, ok, err, Error,
  some, none, is_ok, after, result, ◌>>=◌, ignore, project_locked, redis_error, eq_refl, ap, sym,
  ◌∙◌, subst,
}
use driftd.Redis.{Redis}
use driftd.Queue.Types.{StackScan, Scan, unix}
use driftd.Queue.Store.{Db, Store, Fault, served, refused, lost, online, call, key_running_scans}
use driftd.Queue.Locks.{release_owned_lock, release_script}
use driftd.Queue.Lookups.{get_scan}
use driftd.Queue.Scans.RoundTrip.{as_read, get_scan-written}
use driftd.Queue.Scans.{new_scan, clip, retention, create_pipeline, start_scan, scan_id_of}

-- The error of a call that is not served, or the answer that the lock is held.
abbrev held_error : List Fault → Error
held_error [] = project_locked
held_error (served ∷ fs) = project_locked
held_error (_ ∷ fs) = redis_error

abbrev rest_of : List Fault → List Fault
rest_of [] = []
rest_of (f ∷ fs) = fs

-- The next call never reaches the server.
abbrev pub refuses : List Fault → Bool
refuses (refused ∷ fs) = true
refuses _ = false

module _ (project trigger commit actor : String) (ttl id_at now : ℕ) (total : ℤ) where
  abbrev the_id : String
  the_id = scan_id_of project id_at

  abbrev pub the_scan : Scan
  the_scan = new_scan (scan_id_of project id_at) project trigger commit actor (clip total) now

  module _ {r : Redis StackScan} where
    pub held_run :
        (d : Db r) (fs : List Fault) {owner : String}
        → r.ids.get d.locks project ≡ some owner
        → start_scan ttl project trigger commit actor total id_at now
            (record { db = d; faults = fs })
          ≡ (err (held_error fs), record { db = d; faults = rest_of fs })
    unfolding start_scan ◌>>=◌ call
    held_run d [] h = rw (r.ids.setnx_lem d.locks project the_id ttl, h) refl
    held_run d (served ∷ fs) h = rw (r.ids.setnx_lem d.locks project the_id ttl, h) refl
    held_run d (refused ∷ fs) h = refl
    held_run d (lost ∷ fs) h = rw (r.ids.setnx_lem d.locks project the_id ttl, h) refl

    -- While a scan holds the project's lock, no other scan starts, however the calls fare, and
    -- nothing in Redis changes.
    pub start_scan-held :
        (s : Store r) {owner : String}
        → r.ids.get s.db.locks project ≡ some owner
        → ((after (start_scan ttl project trigger commit actor total id_at now) s).db ≡ s.db)
          × (is_ok (result (start_scan ttl project trigger commit actor total id_at now) s) ≡ false)
    start_scan-held s h = (
      ap (λ p. p.1.db) (held_run s.db s.faults h),
      ap (λ p. is_ok p.0) (held_run s.db s.faults h),
    )

    -- The data after the two calls of a start that succeeds.
    abbrev locked : Db r → Db r
    locked d = record d { locks = r.ids.set d.locks project the_id ttl }

    start_scan-run :
        (d : Db r)
        → r.ids.get d.locks project ≡ none
        → start_scan ttl project trigger commit actor total id_at now (online d)
          ≡ (ok the_scan, online (create_pipeline the_scan (locked d)))
    unfolding start_scan ◌>>=◌ call
    start_scan-run d h = rw (r.ids.setnx_lem d.locks project the_id ttl, h) refl

    -- How the start is left when the pipeline that writes the scan is refused or lost.
    abbrev broken : Fault → Db r → Db r
    broken refused d = locked d
    broken _ d = create_pipeline the_scan (locked d)

    -- The lock, given back unless that call is refused too.
    abbrev freed : List Fault → Db r → Db r
    freed (refused ∷ fs) d = d
    freed _ d = record d { locks = r.ids.del d.locks project }

    given_back_run :
        (d : Db r) (how : Fault) (fs : List Fault)
        → r.ids.get d.locks project ≡ none
        → ¬ (how ≡ served)
        → start_scan ttl project trigger commit actor total id_at now
            (record { db = d; faults = served ∷ how ∷ fs })
          ≡ (err redis_error, record { db = freed fs (broken how d); faults = rest_of fs })
    unfolding start_scan ◌>>=◌ call release_owned_lock release_script ignore create_pipeline
    given_back_run d served fs h ne = absurd (ne refl)
    given_back_run d refused [] h ne =
        rw
          (
            r.ids.setnx_lem d.locks project the_id ttl,
            h,
            r.ids.get-set d.locks project the_id ttl project,
            eq_refl project,
            eq_refl the_id,
          )
          refl
    given_back_run d refused (served ∷ fs) h ne =
        rw
          (
            r.ids.setnx_lem d.locks project the_id ttl,
            h,
            r.ids.get-set d.locks project the_id ttl project,
            eq_refl project,
            eq_refl the_id,
          )
          refl
    given_back_run d refused (refused ∷ fs) h ne =
        rw (r.ids.setnx_lem d.locks project the_id ttl, h) refl
    given_back_run d refused (lost ∷ fs) h ne =
        rw
          (
            r.ids.setnx_lem d.locks project the_id ttl,
            h,
            r.ids.get-set d.locks project the_id ttl project,
            eq_refl project,
            eq_refl the_id,
          )
          refl
    given_back_run d lost [] h ne =
        rw
          (
            r.ids.setnx_lem d.locks project the_id ttl,
            h,
            r.ids.get-set d.locks project the_id ttl project,
            eq_refl project,
            eq_refl the_id,
          )
          refl
    given_back_run d lost (served ∷ fs) h ne =
        rw
          (
            r.ids.setnx_lem d.locks project the_id ttl,
            h,
            r.ids.get-set d.locks project the_id ttl project,
            eq_refl project,
            eq_refl the_id,
          )
          refl
    given_back_run d lost (refused ∷ fs) h ne =
        rw (r.ids.setnx_lem d.locks project the_id ttl, h) refl
    given_back_run d lost (lost ∷ fs) h ne =
        rw
          (
            r.ids.setnx_lem d.locks project the_id ttl,
            h,
            r.ids.get-set d.locks project the_id ttl project,
            eq_refl project,
            eq_refl the_id,
          )
          refl

    freed-lock :
        (fs : List Fault) (d : Db r)
        → r.ids.get d.locks project ≡ some the_id
        → r.ids.get (freed fs d).locks project ≡ (if refuses fs then some the_id else none)
    freed-lock [] d h = rw (r.ids.get-del d.locks project project, eq_refl project) refl
    freed-lock (refused ∷ fs) d h = h
    freed-lock (served ∷ fs) d h = rw (r.ids.get-del d.locks project project, eq_refl project) refl
    freed-lock (lost ∷ fs) d h = rw (r.ids.get-del d.locks project project, eq_refl project) refl

    broken-lock : (d : Db r) (how : Fault) → r.ids.get (broken how d).locks project ≡ some the_id
    unfolding create_pipeline
    broken-lock d refused =
        rw (r.ids.get-set d.locks project the_id ttl project, eq_refl project) refl
    broken-lock d served =
        rw (r.ids.get-set d.locks project the_id ttl project, eq_refl project) refl
    broken-lock d lost = rw (r.ids.get-set d.locks project the_id ttl project, eq_refl project) refl

    -- When a start has taken the lock, which was free, and the pipeline that writes the scan is
    -- refused, or served with its reply lost, the start fails, and it has given the lock back unless
    -- the call for that is refused as well.
    pub start_scan-gives_back :
        (d : Db r) (how : Fault) (fs : List Fault)
        → r.ids.get d.locks project ≡ none
        → ¬ (how ≡ served)
        → let m = start_scan ttl project trigger commit actor total id_at now in
          let s : Store r = record { db = d; faults = served ∷ how ∷ fs } in
          (result m s ≡ err redis_error)
          × (r.ids.get (after m s).db.locks project
              ≡ (if refuses fs then some (scan_id_of project id_at) else none))
    start_scan-gives_back d how fs h ne =
        let e = given_back_run d how fs h ne in
        (
          ap (λ p. p.0) e,
          ap (λ p. r.ids.get p.1.db.locks project) e
              ∙ freed-lock fs (broken how d) (broken-lock d how),
        )

    pub record Started (d : Db r) : Type 0 where
      pub locked : r.ids.get d.locks project ≡ some (scan_id_of project id_at)
      pub active : r.ids.get d.actives project ≡ some (scan_id_of project id_at)
      pub indexed :
          r.sorted_sets.zscore d.running_scans key_running_scans (scan_id_of project id_at)
          ≡ some (pos (unix now))
      pub readable : result (get_scan (scan_id_of project id_at)) (online d) ≡ ok (as_read the_scan)

    created-Started :
        (d : Db r) → r.ids.get d.locks project ≡ some the_id → Started (create_pipeline the_scan d)
    unfolding create_pipeline new_scan
    created-Started d l = record {
      locked = l;
      active = rw (r.ids.get-set d.actives project the_id retention project, eq_refl project) refl;
      indexed =
          rw
            (
              r.sorted_sets.zscore-zadd d.running_scans key_running_scans the_id _ key_running_scans
                  the_id,
              eq_refl the_id,
            )
            refl;
      readable =
          get_scan-written the_id project trigger commit actor (clip total) now
            (record d { actives = _; running_scans = _ });
    }

    -- With the project's lock free and every call served, StartScan starts the scan: the lock and
    -- the active pointer name it, the index holds the second of its start, and GetScan reads it back
    -- as answered, with its times cut to whole seconds and, in place of the zero time, an end in 1970.
    pub start_scan-Started :
        (d : Db r)
        → r.ids.get d.locks project ≡ none
        → let m = start_scan ttl project trigger commit actor total id_at now in
          (result m (online d) ≡ ok the_scan) × Started (after m (online d)).db
    start_scan-Started d h =
        let e = start_scan-run d h in
        (
          ap (λ p. p.0) e,
          subst (λ p. Started p.1.db) (sym e)
              (created-Started (locked d)
                (rw (r.ids.get-set d.locks project the_id ttl project, eq_refl project) refl)),
        )

-- ===== src/Orchestrate/Cloning.antt =====
-- cloneWorkspace and the clone lock.
use driftd.Prelude.{
  ℕ, zero, suc, String, ◌≡◌, refl, ok, none, some, after, result, ◌>>=◌, ◌∙◌, >>=-ok, examine-ok,
  eq_refl, ap, sym, subst, pure, lift,
}
use driftd.Redis.{Redis}
use driftd.Queue.Types.{StackScan}
use driftd.Queue.Store.{Db, online, call}
use driftd.Queue.Locks.{acquire_clone_lock, renew_clone_lock, release_clone_lock}
use driftd.Orchestrate.{
  Outside, acquire_clone_lock_loop, renew_clone_lock_loop, release_after, clone_locked,
}

module _ {r : Redis StackScan} (url_hash owner : String) (ttl : ℕ) where
  -- The owner has the clone lock.
  abbrev Owned : Db r → Type 0
  Owned d = r.ids.get d.clone_locks url_hash ≡ some owner

  acquired_run :
      (tries : ℕ) (d : Db r)
      → r.ids.get d.clone_locks url_hash ≡ none
      → acquire_clone_lock_loop (suc tries) url_hash owner ttl (online d)
        ≡ (ok tt, online (record d { clone_locks = r.ids.set d.clone_locks url_hash owner ttl }))
  unfolding acquire_clone_lock_loop acquire_clone_lock ◌>>=◌ call
  acquired_run tries d h = rw (r.ids.setnx_lem d.clone_locks url_hash owner ttl, h) refl

  renewed_once :
      (d : Db r)
      → Owned d
      → renew_clone_lock url_hash owner ttl (online d)
        ≡ (ok tt, online (record d { clone_locks = r.ids.pexpire d.clone_locks url_hash ttl }))
  unfolding renew_clone_lock ◌>>=◌ call
  renewed_once d h = rw (h, eq_refl owner) refl

  renewed_run :
      (n : ℕ) (d : Db r)
      → Owned d
      → (d' : Db r) × (renew_clone_lock_loop n url_hash owner ttl (online d) ≡ (ok tt, online d'))
        × Owned d'
  unfolding renew_clone_lock_loop pure
  renewed_run zero d h = (d, refl, h)
  renewed_run (suc n) d h =
      let d1 : Db r = record d { clone_locks = r.ids.pexpire d.clone_locks url_hash ttl } in
      let (d', run, k) =
        renewed_run n d1 (r.ids.get-pexpire d.clone_locks url_hash ttl url_hash ∙ h) in
      (d', >>=-ok _ _ (renewed_once d h) ∙ run, k)

  released_run :
      (d : Db r)
      → Owned d
      → release_after (ok tt) url_hash owner (online d)
        ≡ (ok tt, online (record d { clone_locks = r.ids.del d.clone_locks url_hash }))
  unfolding release_after release_clone_lock ◌>>=◌ lift call
  released_run d h = rw (h, eq_refl owner) refl

module _ {r : Redis StackScan} where
  -- With the clone lock free and every call served, cloneWorkspace answers what git answers, an
  -- error too, however often the lock was renewed meanwhile, and the lock is free again.
  pub clone_locked-free :
      (o : Outside) (owner : String) (ttl tries : ℕ) (d : Db r)
      → o.tries ≡ suc tries
      → r.ids.get d.clone_locks o.url_hash ≡ none
      → (result (clone_locked o owner ttl) (online d) ≡ o.git)
        × (r.ids.get (after (clone_locked o owner ttl) (online d)).db.clone_locks o.url_hash ≡ none)
  unfolding clone_locked lift pure
  clone_locked-free o owner ttl tries d t h =
      let u = o.url_hash in
      let d1 : Db r = record d { clone_locks = r.ids.set d.clone_locks u owner ttl } in
      let got : r.ids.get d1.clone_locks u ≡ some owner =
        rw (r.ids.get-set d.clone_locks u owner ttl u, eq_refl u) refl in
      let (d2, renewed, k) = renewed_run u owner ttl o.renewals d1 got in
      let d3 : Db r = record d2 { clone_locks = r.ids.del d2.clone_locks u } in
      let run : clone_locked o owner ttl (online d) ≡ (o.git, online d3) =
        >>=-ok _ _ (
          ap (λ n. acquire_clone_lock_loop n u owner ttl (online d)) t
          ∙ acquired_run u owner ttl tries d h)
        ∙ >>=-ok _ _ (examine-ok _ _ _ renewed)
        ∙ examine-ok _ _ _ (released_run u owner ttl d2 k) in
      (
        ap (λ p. p.0) run,
        subst (λ p. r.ids.get p.1.db.clone_locks u ≡ none) (sym run)
            (rw (r.ids.get-del d2.clone_locks u u, eq_refl u) refl),
      )

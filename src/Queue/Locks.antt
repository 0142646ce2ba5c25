-- ===== src/Queue/Locks.antt =====
-- The locks: internal/queue/client.go (the project lock) and clone_lock.go.
use driftd.Prelude.{
  ℕ, String, Bool, true, false, ok, if◌then◌else◌, holds, is_some, pure, raise,
  clone_lock_not_owned, ◌>>=◌,
}
use driftd.Redis.{Redis}
use driftd.Queue.Types.{StackScan}
use driftd.Queue.Store.{Script, Exec, call, read}

module _ {r : Redis StackScan} where
  -- GET == owner, then DEL. The answer says whether the owner held it.
  unfoldable pub release_script : String → String → Script r Bool
  release_script project scan_id d =
      if holds (r.ids.get d.locks project) scan_id
      then (ok true, record d { locks = r.ids.del d.locks project })
      else (ok false, d)

  unfoldable pub release_owned_lock : String → String → Exec r Bool
  release_owned_lock project scan_id = call (release_script project scan_id)

  -- ReleaseScanLock
  unfoldable pub release_scan_lock : String → String → Exec r Bool
  release_scan_lock project scan_id = release_owned_lock project scan_id

  -- renewLockScript: GET == scan id, then PEXPIRE.
  unfoldable pub renew_script : String → String → ℕ → Script r Bool
  renew_script project scan_id ttl d =
      if holds (r.ids.get d.locks project) scan_id
      then (ok true, record d { locks = r.ids.pexpire d.locks project ttl })
      else (ok false, d)

  unfoldable pub is_project_locked : String → Exec r Bool
  is_project_locked project = call (read λ d. is_some (r.ids.get d.locks project))

  unfoldable pub acquire_clone_lock : String → String → ℕ → Exec r Bool
  acquire_clone_lock url_hash owner ttl = call λ d.
      let (won, locks) = r.ids.setnx d.clone_locks url_hash owner ttl in
      (ok won, record d { clone_locks = locks })

  unfoldable pub renew_clone_lock : String → String → ℕ → Exec r Unit
  renew_clone_lock url_hash owner ttl = do
    renewed ← call λ d.
        if holds (r.ids.get d.clone_locks url_hash) owner
        then (ok true, record d { clone_locks = r.ids.pexpire d.clone_locks url_hash ttl })
        else (ok false, d)
    if renewed then pure tt else raise clone_lock_not_owned

  unfoldable pub release_clone_lock : String → String → Exec r Unit
  release_clone_lock url_hash owner = do
    released ← call λ d.
        if holds (r.ids.get d.clone_locks url_hash) owner
        then (ok true, record d { clone_locks = r.ids.del d.clone_locks url_hash })
        else (ok false, d)
    if released then pure tt else raise clone_lock_not_owned

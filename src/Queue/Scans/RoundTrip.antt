-- ===== src/Queue/Scans/RoundTrip.antt =====
-- A new scan is read back from the fields that were written for it.
use driftd.Prelude.{
  pos, ℕ, ℤ, String, List, [], ◌∷◌, ◌≡◌, refl, ok, some, ap, ◌∙◌, eq_refl, result, lift, >>=-ok,
}
use driftd.Redis.{Redis, Cell, text, field}
use driftd.Queue.Types.{time_unix, unix_z, StackScan, Scan, scan_from_hash}
use driftd.Queue.Store.{Db, online, call-online}
use driftd.Queue.Lookups.{get_scan, scan_of_values}
use driftd.Queue.Scans.{new_scan, scan_fields}

-- The fields hold what was written, and maybe more.
abbrev Holds : List (String × Cell) → List (String × Cell) → Type 0
Holds values written = (f : String) (c : Cell) → field f written ≡ some c → field f values ≡ some c

-- The scan as GetScan reads it: the hash keeps the seconds of its times, and 0 for the end.
abbrev pub as_read : Scan → Scan
as_read scan = record scan {
  created_at = time_unix (unix_z scan.created_at);
  started_at = time_unix (unix_z scan.started_at);
  ended_at = pos 0;
}

module _ (id project trigger commit actor : String) (total : ℤ) (now : ℕ) where
  abbrev fresh : Scan
  fresh = new_scan id project trigger commit actor total now

  from_hash :
      (values : List (String × Cell))
      → Holds values (scan_fields fresh)
      → scan_from_hash values ≡ as_read fresh
  unfolding scan_from_hash scan_fields new_scan
  from_hash values h =
      rw
        (
          h "id" _ refl,
          h "project" _ refl,
          h "trigger" _ refl,
          h "commit" _ refl,
          h "actor" _ refl,
          h "status" _ refl,
          h "created_at" _ refl,
          h "started_at" _ refl,
          h "ended_at" _ refl,
          h "error" _ refl,
          h "tf_version" _ refl,
          h "tg_version" _ refl,
          h "stack_tf" _ refl,
          h "stack_tg" _ refl,
          h "workspace" _ refl,
          h "commit_sha" _ refl,
          h "total" _ refl,
          h "queued" _ refl,
          h "running" _ refl,
          h "completed" _ refl,
          h "failed" _ refl,
          h "drifted" _ refl,
          h "errored" _ refl,
        )
        refl

  of_values :
      (values : List (String × Cell))
      → Holds values (scan_fields fresh)
      → scan_of_values values ≡ ok (as_read fresh)
  unfolding scan_fields new_scan
  of_values [] h = cc (h "id" (text id) refl)
  of_values (v ∷ vs) h = ap ok (from_hash (v ∷ vs) h)

  -- GetScan, after the fields of a new scan were written.
  pub get_scan-written :
      {r : Redis StackScan} (d : Db r)
      → result
          (get_scan id)
          (online (record d { scans = r.hashes.hset d.scans id (scan_fields fresh) }))
        ≡ ok (as_read fresh)
  unfolding get_scan lift
  get_scan-written {r} d =
      let h = r.hashes.hset d.scans id (scan_fields fresh) in
      ap (λ p. p.0) (>>=-ok _ _ (call-online _ refl))
      ∙ of_values (r.hashes.hgetall h id) (λ f c e.
        r.hashes.field-hgetall h id f
        ∙ rw (r.hashes.hget-hset d.scans id _ id f, eq_refl id, e) refl)

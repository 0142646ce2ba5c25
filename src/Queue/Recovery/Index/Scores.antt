-- ===== src/Queue/Recovery/Index/Scores.antt =====
-- What RebuildRunningScansIndex of internal/queue/scan_recovery.go makes of the index.
use driftd.Prelude.{
  ℕ, ◌+◌, ℤ, pos, eq_ℤ, String, Bool, true, false, Option, none, some, List, [], ◌∷◌, ◌++◌, ◌==◌,
  ◌≡◌, refl, sym, ap, ◌∙◌, not, ◌&&◌, ◌||◌, if◌then◌else◌, elem, or_else, ok, pure, examine, >>=-ok,
  resume, Bool-cases, inl, inr, eq_iff, eq_refl, subst,
}
use driftd.Redis.{Redis}
use driftd.Queue.Types.{StackScan, running, text_of, to_int}
use driftd.Queue.Store.{Db, online, call, read, key_running_scans}
use driftd.Queue.Recovery.{tally}
use driftd.Queue.Recovery.Index.{
  all_keys, added_or, zadd_nx, index_scan, rebuild_running_scans_index, passed_over, start_of,
  score,
}

merge :
    (a e p : Bool) (o z : Option ℤ)
    → (if e && p
        then or_else (if a && p then or_else o z else o) z
        else if a && p
        then or_else o z
        else o)
      ≡ (if (a || e) && p then or_else o z else o)
merge true true true none none = refl
merge true true true none (some z) = refl
merge true true true (some s) z = refl
merge true true false o z = refl
merge true false true o z = refl
merge true false false o z = refl
merge false true true o z = refl
merge false true false o z = refl
merge false false p o z = refl

module _ {r : Redis StackScan} where
  -- What a key makes of the index.
  abbrev step : String → Db r → Db r
  step id d = if passed_over d id then d else (zadd_nx id (start_of d id) d).1

  abbrev steps_of : List String → Db r → Db r
  steps_of [] d = d
  steps_of (id ∷ ids) d = steps_of ids (step id d)

  added-run :
      (id : String) (z : ℤ) (d : Db r)
      → (k : ℕ) × (examine
            (call (zadd_nx id z))
            (λ _. pure 0)
            (λ added. pure (if added then 1 else 0))
            (online d)
          ≡ (ok k, online (zadd_nx id z d).1))
  unfolding examine call pure
  added-run id z d = go (score d id)
    where
      go :
          (o : Option ℤ)
          → (k : ℕ) × (resume
                (added_or o id z d).0
                (λ _. pure 0)
                (λ added. pure (if added then 1 else 0))
                (online (added_or o id z d).1)
              ≡ (ok k, online (added_or o id z d).1))
      go none = (1, refl)
      go (some s) = (0, refl)

  index_scan-step :
      (id : String) (d : Db r) → (k : ℕ) × (index_scan id (online d) ≡ (ok k, online (step id d)))
  unfolding index_scan examine call pure
  index_scan-step id d = go (passed_over d id)
    where
      go :
          (b : Bool)
          → (k : ℕ) × ((if b
                  then pure 0
                  else examine
                      (call (zadd_nx id (start_of d id)))
                      (λ _. pure 0)
                      (λ added. pure (if added then 1 else 0)))
                (online d)
              ≡ (ok k, online (if b then d else (zadd_nx id (start_of d id) d).1)))
      go true = (0, refl)
      go false = added-run id (start_of d id) d

  tally-steps :
      (ids : List String) (n : ℕ) (d : Db r)
      → (k : ℕ) × (tally index_scan ids n (online d) ≡ (ok k, online (steps_of ids d)))
  unfolding tally pure
  tally-steps [] n d = (n, refl)
  tally-steps (id ∷ ids) n d =
      let (k, e) = index_scan-step id d in
      let (m, f) = tally-steps ids (n + k) (step id d) in (m, >>=-ok _ _ e ∙ f)

  steps-append :
      (xs ys : List String) (d : Db r) → steps_of (xs ++ ys) d ≡ steps_of ys (steps_of xs d)
  steps-append [] ys d = refl
  steps-append (x ∷ xs) ys d = steps-append xs ys (step x d)

  rebuild-steps :
      (pages : List (List String)) (n : ℕ) (d : Db r)
      → (k : ℕ) × (rebuild_running_scans_index pages n (online d)
          ≡ (ok k, online (steps_of (all_keys pages) d)))
  unfolding rebuild_running_scans_index pure call
  rebuild-steps [] n d = (n, refl)
  rebuild-steps (page ∷ pages) n d =
      let (k, e) = tally-steps page n d in
      let (m, f) = rebuild-steps pages k (steps_of page d) in
      (
        m,
        >>=-ok (call (read λ _. page)) _ refl
            ∙ >>=-ok _ _ e
            ∙ f
            ∙ ap (λ x. (ok m, online x)) (sym (steps-append page (all_keys pages) d)),
      )

  -- The scans themselves are left alone.
  scans-step : (id : String) (d : Db r) → (step id d).scans ≡ d.scans
  scans-step id d = go (passed_over d id) (score d id)
    where
      go :
          (b : Bool) (o : Option ℤ)
          → (if b then d else (added_or o id (start_of d id) d).1).scans ≡ d.scans
      go true o = refl
      go false none = refl
      go false (some s) = refl

  score-same :
      (j : String) (d : Db r)
      → score (step j d) j
        ≡ (if not (passed_over d j) then or_else (score d j) (some (start_of d j)) else score d j)
  score-same j d = go (passed_over d j) (score d j) refl
    where
      go :
          (b : Bool) (o : Option ℤ)
          → score d j ≡ o
          → score (if b then d else (added_or o j (start_of d j) d).1) j
            ≡ (if not b then or_else o (some (start_of d j)) else o)
      go true o h = h
      go false none h =
          rw
            (
              r.sorted_sets.zscore-zadd d.running_scans key_running_scans j (start_of d j)
                  key_running_scans j,
              eq_refl j,
            )
            refl
      go false (some s) h = h

  score-other : (id j : String) (d : Db r) → (id == j) ≡ false → score (step id d) j ≡ score d j
  score-other id j d n = go (passed_over d id) (score d id)
    where
      go :
          (b : Bool) (o : Option ℤ)
          → score (if b then d else (added_or o id (start_of d id) d).1) j ≡ score d j
      go true o = refl
      go false none =
          rw
            (
              r.sorted_sets.zscore-zadd d.running_scans key_running_scans id (start_of d id)
                  key_running_scans j,
              n,
            )
            refl
      go false (some s) = refl

  score-step :
      (id j : String) (d : Db r)
      → score (step id d) j ≡ (
          if id == j && not (passed_over d j)
          then or_else (score d j) (some (start_of d j))
          else score d j)
  score-step id j d = elim (Bool-cases (id == j)) [
    | inl y ↦ rw y (
        subst
          (λ i. score (step i d) j ≡ (
            if not (passed_over d j) then or_else (score d j) (some (start_of d j)) else score d j))
          (sym ((eq_iff id j).0 y)) (score-same j d))
    | inr n ↦ rw n (score-other id j d n)
  ]

  score-steps :
      (ids : List String) (j : String) (d : Db r)
      → score (steps_of ids d) j ≡ (
          if elem j ids && not (passed_over d j)
          then or_else (score d j) (some (start_of d j))
          else score d j)
  score-steps [] j d = refl
  score-steps (id ∷ ids) j d =
      score-steps ids j (step id d)
      ∙ ap
          (λ h.
            if elem j ids
              && not (
                  not (text_of (r.hashes.hget h j "status") == running)
                  || eq_ℤ (to_int (r.hashes.hget h j "started_at")) (pos 0))
            then or_else (score (step id d) j) (some (to_int (r.hashes.hget h j "started_at")))
            else score (step id d) j)
          (scans-step id d)
      ∙ ap (λ o. if elem j ids && not (passed_over d j) then or_else o (some (start_of d j)) else o)
          (score-step id j d)
      ∙ merge (id == j) (elem j ids) (not (passed_over d j)) (score d j) (some (start_of d j))

  -- With Redis up the rebuilding answers, whatever pages SCAN lists the keys in: a scan whose key is
  -- listed, that is recorded as running and has a start, is in the index afterwards, with the score
  -- that it had there or else its start; every other entry is as it was.
  pub rebuild_running_scans_index-score :
      (pages : List (List String)) (n : ℕ) (d : Db r) (j : String)
      → (k : ℕ) × (d2 : Db r) × (rebuild_running_scans_index pages n (online d) ≡ (ok k, online d2))
        × (score d2 j ≡ (
            if elem j (all_keys pages) && not (passed_over d j)
            then or_else (score d j) (some (start_of d j))
            else score d j))
  rebuild_running_scans_index-score pages n d j =
      let (k, e) = rebuild-steps pages n d in
      (k, steps_of (all_keys pages) d, e, score-steps (all_keys pages) j d)

-- ===== src/Queue/Transitions/Frame.antt =====
-- When scanTransitionScript ends a scan, and what it leaves alone.
use driftd.Prelude.{
  ℕ, pos, ltb, String, Bool, true, false, ◌||◌, ◌∷◌, [], ◌&&◌, ◌==◌, ◌≡◌, refl, some, if◌then◌else◌,
  arith, eq_refl, Bool-cases, inl, inr, ◌∙◌,
}
use driftd.Redis.{Redis, text, num}
use driftd.Queue.Types.{StackScan, running, completed, failed}
use driftd.Queue.Store.{Db, key_running_scans}
use driftd.Queue.Transitions.{finish}
use driftd.Queue.Transitions.Counts.{Counts, is_done}
use driftd.Queue.Transitions.Loop.{is_counter, Elsewhere}

-- The scan ends: it runs and the counts say that it is done.
abbrev pub ends : String → Counts → Bool
ends status c = status == running && is_done c

abbrev pub verdict : Counts → String
verdict c = if ltb 0 (c "failed") then failed else completed

module _ {r : Redis StackScan} where
  -- What the script leaves alone: every other field and scan (`ended_at` is written only if the
  -- scan ends), the other projects, the other scans of the index, and all other families of keys.
  pub record Framed (d d' : Db r) (key project status : String) (c : Counts) (now : ℕ)
      : Type 0 where
    pub ended :
        r.hashes.hget d'.scans key "ended_at"
        ≡ (if ends status c then some (num (pos now)) else r.hashes.hget d.scans key "ended_at")
    pub fields :
        (j g : String)
        → (key == j && (is_counter g || "status" == g || "ended_at" == g)) ≡ false
        → r.hashes.hget d'.scans j g ≡ r.hashes.hget d.scans j g
    pub projects :
        (p : String)
        → (project == p) ≡ false
        → (r.ids.get d'.locks p ≡ r.ids.get d.locks p)
          × (r.ids.get d'.actives p ≡ r.ids.get d.actives p)
          × (r.ids.get d'.lasts p ≡ r.ids.get d.lasts p)
    pub index :
        (j : String)
        → (key == j) ≡ false
        → r.sorted_sets.zscore d'.running_scans key_running_scans j
          ≡ r.sorted_sets.zscore d.running_scans key_running_scans j
    pub rest : d' ≡ record d {
      scans = d'.scans;
      locks = d'.locks;
      actives = d'.actives;
      lasts = d'.lasts;
      running_scans = d'.running_scans;
    }

  pub finish-Framed :
      (d : Db r) (key project status : String) (c : Counts) (now : ℕ)
      → ends status c ≡ true
      → Framed d (finish key project (verdict c) now d) key project status c now
  unfolding finish
  finish-Framed d key project status c now e = record {
    ended = rw (r.hashes.hget-hset d.scans key _ key "ended_at", eq_refl key) (rw e);
    fields = λ j g q. ground (
      arith,
      r.hashes.hget-hset d.scans key
          (("status", text (verdict c)) ∷ ("ended_at", num (pos now)) ∷ []) j g,
    );
    projects = λ p q. (
      ground (arith, r.ids.get-del d.locks project p),
      rw (r.ids.get-del d.actives project p, q) refl,
      rw (r.ids.get-set d.lasts project key 604_800 p, q) refl,
    );
    index = λ j q.
        rw (r.sorted_sets.zscore-zrem d.running_scans key_running_scans key key_running_scans j, q)
          (ground arith);
    rest = refl;
  }

  pub still-Framed :
      (d : Db r) (key project status : String) (c : Counts) (now : ℕ)
      → ends status c ≡ false
      → Framed d d key project status c now
  still-Framed d key project status c now e = record {
    ended = rw e;
    fields = λ j g q. refl;
    projects = λ p q. (refl, refl, refl);
    index = λ j q. refl;
    rest = refl;
  }

  -- The loop before it moves counters only.
  pub after_loop :
      (d d' : Db r) (h : r.hashes.Rep) (key project status : String) (c : Counts) (now : ℕ)
      → Elsewhere d (record d { scans = h }) key
      → Framed (record d { scans = h }) d' key project status c now
      → Framed d d' key project status c now
  after_loop d d' h key project status c now away f = record {
    ended = elim (Bool-cases (ends status c)) [
      | inl e ↦ rw e (rw e at f.ended)
      | inr e ↦ rw e ((rw e at f.ended) ∙ away key "ended_at" (rw (eq_refl key) refl))
    ];
    fields = λ j g q. f.fields j g q ∙ away j g (ground arith);
    projects = λ p q. f.projects p q;
    index = λ j q. f.index j q;
    rest = f.rest;
  }

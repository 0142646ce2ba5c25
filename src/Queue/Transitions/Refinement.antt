-- ===== src/Queue/Transitions/Refinement.antt =====
-- scanTransitionScript against its meaning on abstract counts.
use driftd.Prelude.{
  ℕ, ℤ, pos, String, true, false, ◌&&◌, List, ◌==◌, ◌≡◌, refl, ok, some, none, if◌then◌else◌, holds,
  arith, eq_refl, eq_iff, ap, sym, Bool-cases, inl, inr, ◌>>=◌, ◌∙◌,
}
use mathlib.Core.Bool.{false≢true}
use driftd.Redis.{Redis, text}
use driftd.Queue.Types.{StackScan}
use driftd.Queue.Store.{Db, key_running_scans}
use driftd.Queue.Transitions.{TransitionState, settle, finish, transition_script, final_status}
use driftd.Queue.Transitions.Counts.{Counts, bump_all, all_done-is_done}
use driftd.Queue.Transitions.Frame.{ends, verdict, Framed, finish-Framed, still-Framed, after_loop}
use driftd.Queue.Transitions.Loop.{is_counter, CountersOnly, Shows, apply_deltas_lem}

abbrev pub new_status : String → Counts → String
new_status status c = if ends status c then verdict c else status

-- The answer of the script.
abbrev pub answer : String → Counts → ℕ → TransitionState
answer status c now = record {
  status = new_status status c;
  completed = pos (c "completed");
  failed = pos (c "failed");
  total = pos (c "total");
  drifted = pos (c "drifted");
  ended = if ends status c then pos now else pos 0;
}

final_status-verdict : (c : Counts) → final_status (pos (c "failed")) ≡ verdict c
unfolding final_status
final_status-verdict c = ground arith

counter-ne : (f g : String) → is_counter f ≡ false → is_counter g ≡ true → (f == g) ≡ false
counter-ne f g no_counter counts = elim (Bool-cases (f == g)) [
  | inl e ↦ absurd (false≢true (sym no_counter ∙ ap is_counter ((eq_iff f g).0 e) ∙ counts))
  | inr e ↦ e
]

module _ {r : Redis StackScan} where
  -- What the script leaves: counts and status; and, if the scan ends, its lock released (no other
  -- scan's), no active scan, this one the last scan, and out of the index of running scans.
  pub record Settled (d d' : Db r) (key project status : String) (c : Counts) : Type 0 where
    pub counts : Shows d' key c
    pub new_status : r.hashes.hget d'.scans key "status" ≡ some (text (new_status status c))
    pub lock : r.ids.get d'.locks project ≡ (
        if ends status c && holds (r.ids.get d.locks project) key
        then none
        else r.ids.get d.locks project)
    pub active :
        r.ids.get d'.actives project ≡ (if ends status c then none else r.ids.get d.actives project)
    pub last :
        r.ids.get d'.lasts project ≡ (if ends status c then some key else r.ids.get d.lasts project)
    pub indexed : r.sorted_sets.zscore d'.running_scans key_running_scans key ≡ (
        if ends status c then none else r.sorted_sets.zscore d.running_scans key_running_scans key)

  finish-Settled :
      (d : Db r) (key project status : String) (c : Counts) (now : ℕ)
      → Shows d key c
      → ends status c ≡ true
      → Settled d (finish key project (verdict c) now d) key project status c
  unfolding finish
  finish-Settled d key project status c now sh e = record {
    counts = λ g q.
        rw
          (
            r.hashes.hget-hset d.scans key _ key g,
            eq_refl key,
            counter-ne "status" g refl q,
            counter-ne "ended_at" g refl q,
          )
          (sh g q);
    new_status = rw (r.hashes.hget-hset d.scans key _ key "status", eq_refl key) (rw e);
    lock = ground (arith, e, r.ids.get-del d.locks project project, eq_refl project);
    active = ground (arith, r.ids.get-del d.actives project project, eq_refl project);
    last = ground (arith, r.ids.get-set d.lasts project key 604_800 project, eq_refl project);
    indexed = ground (
      arith,
      r.sorted_sets.zscore-zrem d.running_scans key_running_scans key key_running_scans key,
      eq_refl key_running_scans,
      eq_refl key,
    );
  }

  settle_lem :
      (d : Db r) (key project status : String) (c : Counts) (now : ℕ)
      → Shows d key c
      → r.hashes.hget d.scans key "status" ≡ some (text status)
      → (d' : Db r) × (settle key project now d ≡ (ok (answer status c now), d'))
        × Settled d d' key project status c
        × Framed d d' key project status c now
  unfolding settle
  settle_lem d key project status c now sh st = elim (Bool-cases (ends status c)) [
    | inl e ↦ (
      finish key project (verdict c) now d,
      rw
          (
            settle,
            st,
            sh "total" refl,
            sh "completed" refl,
            sh "failed" refl,
            sh "drifted" refl,
            all_done-is_done c,
            final_status-verdict c,
          )
          (rw e),
      finish-Settled d key project status c now sh e,
      finish-Framed d key project status c now e,
    )
    | inr e ↦ (
      d,
      rw
          (
            settle,
            st,
            sh "total" refl,
            sh "completed" refl,
            sh "failed" refl,
            sh "drifted" refl,
            all_done-is_done c,
          )
          (rw e),
      record {
        counts = sh;
        new_status = rw e st;
        lock = rw e;
        active = rw e;
        last = rw e;
        indexed = rw e;
      },
      still-Framed d key project status c now e,
    )
  ]

  -- The script refines the abstract move: at a scan whose counters are numbers, it moves the
  -- counters as the counts move (stopping at 0), answers what they say, and ends the scan (its
  -- status, end, lock, pointers and index) exactly if it runs and the counts are done. It leaves
  -- all other fields, scans, projects and families of keys alone.
  pub transition_script-refines :
      (d : Db r) (key project status : String) (c : Counts) (now : ℕ) (l : List (String × ℤ))
      → CountersOnly l
      → Shows d key c
      → r.hashes.hget d.scans key "status" ≡ some (text status)
      → (d' : Db r) × (transition_script key project now l d
          ≡ (ok (answer status (bump_all l c) now), d'))
        × Settled d d' key project status (bump_all l c)
        × Framed d d' key project status (bump_all l c) now
  unfolding transition_script ◌>>=◌
  transition_script-refines d key project status c now l only sh st =
      let (h, run, sh', away) = apply_deltas_lem key l d c only sh in
      let e : Db r = record d { scans = h } in
      let (d', settled, s, f) =
        settle_lem e key project status (bump_all l c) now sh'
          (away key "status" (rw (eq_refl key)) ∙ st) in
      (
        d',
        rw run settled,
        record {
          counts = s.counts;
          new_status = s.new_status;
          lock = s.lock;
          active = s.active;
          last = s.last;
          indexed = s.indexed;
        },
        after_loop d d' h key project status (bump_all l c) now away f,
      )

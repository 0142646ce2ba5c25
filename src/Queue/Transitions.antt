-- ===== src/Queue/Transitions.antt =====
-- internal/queue/scan_transitions.go: the counters of a scan and its end.
pub mod Counts
pub mod Loop
pub mod Frame
pub mod Refinement
use driftd.Prelude.{
  ◌*◌, ℕ, suc, ℤ, pos, ◌+ℤ◌, ltb_ℤ, leb_ℤ, String, Bool, ◌&&◌, ◌||◌, Option, none, some, List, [],
  ◌∷◌, ◌==◌, ok, if◌then◌else◌, holds, pure, ◌>>=◌, ◌>>◌, ignore,
}
use driftd.Redis.{Redis, Cell, text, num}
use driftd.Queue.Types.{StackScan, ScanEvent, running, completed, failed, unix, text_of, to_int}
use driftd.Queue.Store.{Db, Script, Exec, call, command, key_running_scans}
use driftd.Queue.Events.{publish_scan_event}

-- scanTransitionState, as the script answers it (`ended` is 0 while the scan goes on).
pub record TransitionState : Type 0 where
  pub status : String
  pub completed : ℤ
  pub failed : ℤ
  pub total : ℤ
  pub drifted : ℤ
  pub ended : ℤ

-- redis.call('HGET', key, 'status') or 'running'
abbrev pub status_of : Option Cell → String
status_of none = running
status_of (some c) = text_of (some c)

-- (total == 0) or (comp + fail >= total)
unfoldable pub all_done : ℤ → ℤ → ℤ → Bool
all_done total comp fail =
    (leb_ℤ total (pos 0) && leb_ℤ (pos 0) total) || leb_ℤ total (comp +ℤ fail)

-- if fail > 0 then status = 'failed'
unfoldable pub final_status : ℤ → String
final_status fail = if ltb_ℤ (pos 0) fail then failed else completed

-- publishScanUpdateFromState; parseScanTransitionState makes a time of a positive `ended`.
abbrev pub update_event : String → String → TransitionState → ScanEvent
update_event scan_id project st = record {
  project_name = project;
  scan_id = scan_id;
  commit_sha = "";
  status = st.status;
  completed = st.completed;
  failed = st.failed;
  total = st.total;
  drifted_cnt = st.drifted;
  started_at = none;
  ended_at = elim st.ended [ pos (suc n) ↦ some (suc n * 1_000_000_000) | _ ↦ none ];
}

module _ {r : Redis StackScan} where
  abbrev set_num : String → String → ℤ → Script r Unit
  set_num key f z = command λ d. record d { scans = r.hashes.hset d.scans key ((f, num z) ∷ []) }

  abbrev incr : String → String → ℤ → Script r ℤ
  incr key f delta d =
      let (val, scans) = r.hashes.hincrby d.scans key f delta in (val, record d { scans = scans })

  -- One round of the script's loop: HINCRBY, then 0 in place of a negative count.
  unfoldable pub apply_delta : String → String → ℤ → Script r Unit
  apply_delta key f delta = do
    val ← incr key f delta
    if ltb_ℤ val (pos 0) then set_num key f (pos 0) else pure tt

  unfoldable pub apply_deltas : String → List (String × ℤ) → Script r Unit
  apply_deltas key [] = pure tt
  apply_deltas key ((f, delta) ∷ rest) = do apply_delta key f delta; apply_deltas key rest

  -- The writes of a scan that is done: status, lock (only its own), pointers, index.
  unfoldable pub finish : String → String → String → ℕ → Db r → Db r
  finish scan_id project status ended_at d = record d {
    scans =
        r.hashes.hset d.scans scan_id
          (("status", text status) ∷ ("ended_at", num (pos ended_at)) ∷ []);
    locks =
        if holds (r.ids.get d.locks project) scan_id then r.ids.del d.locks project else d.locks;
    actives = r.ids.del d.actives project;
    lasts = r.ids.set d.lasts project scan_id 604_800;
    running_scans = r.sorted_sets.zrem d.running_scans key_running_scans scan_id;
  }

  abbrev state_of : Db r → String → String → ℤ → TransitionState
  state_of d key status ended = record {
    status = status;
    completed = to_int (r.hashes.hget d.scans key "completed");
    failed = to_int (r.hashes.hget d.scans key "failed");
    total = to_int (r.hashes.hget d.scans key "total");
    drifted = to_int (r.hashes.hget d.scans key "drifted");
    ended = ended;
  }

  -- The script after its loop.
  unfoldable pub settle : String → String → ℕ → Script r TransitionState
  settle scan_id project ended_at d =
      let total = to_int (r.hashes.hget d.scans scan_id "total") in
      let comp = to_int (r.hashes.hget d.scans scan_id "completed") in
      let fail = to_int (r.hashes.hget d.scans scan_id "failed") in
      let status = status_of (r.hashes.hget d.scans scan_id "status") in
      if status == running && all_done total comp fail
      then (
        ok (state_of d scan_id (final_status fail) (pos ended_at)),
        finish scan_id project (final_status fail) ended_at d,
      )
      else (ok (state_of d scan_id status (pos 0)), d)

  -- scanTransitionScript
  unfoldable pub transition_script :
      String → String → ℕ → List (String × ℤ) → Script r TransitionState
  transition_script scan_id project ended_at deltas = do
    apply_deltas scan_id deltas
    settle scan_id project ended_at

  unfoldable pub run_scan_transition : String → String → ℕ → List (String × ℤ) → Exec r Unit
  run_scan_transition scan_id project now deltas = do
    st ← call (transition_script scan_id project (unix now) deltas)
    ignore (publish_scan_event project now (update_event scan_id project st))

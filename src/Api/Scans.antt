-- ===== src/Api/Scans.antt =====
-- internal/api/handlers_api.go: the requests that start a scan. What a handler calls of the orchestrator and the
-- queue is an interface here (scan_service.go passes the calls on), which Api/Orchestrated.antt
-- fills. The texts of http.Error and of the
-- errors of other components are left out.
pub mod Traces
pub mod Locked
use Prim.Native.String.{◌++◌}
use driftd.Prelude.{
  ℕ, String, Bool, true, false, Option, none, some, List, [], ◌∷◌, ◌==◌, not, ◌||◌, if◌then◌else◌,
  trim_space, length, Result, ok, err, Error, project_locked, no_stacks_enqueued, Action, pure,
  raise, lift, examine, ignore, ◌>>=◌, ◌>>◌,
}
use driftd.Config.{ProjectConfig}
use driftd.Config.Projects.{is_valid_project_name}
use driftd.Queue.Types.{Scan, StackScan}
use driftd.Queue.Keys.{decimal}
use driftd.Orchestrate.Lifecycle.{Request, EnqueueStacksResult}
use driftd.Storage.{is_safe_stack_path}
use driftd.Api.Dto.{ApiScan, to_api_scan}

-- What starts scans, over its state.
pub record Scanner (S : Type 0) : Type 0 where
  pub start_scan : ProjectConfig → Request → Action S (Scan × List String)
  pub enqueue_stacks : Scan → ProjectConfig → List String → Request → Action S EnqueueStacksResult
  pub fail_scan : String → String → String → Action S Unit
  pub get_active_scan : String → Action S Scan

pub record ScanRequest : Type 0 where
  pub trigger : String
  pub commit : String
  pub actor : String

pub record ScanResponse : Type 0 where
  pub stacks : List String
  pub scan : Option ApiScan
  pub scans : List ApiScan
  pub active_scan : Option ApiScan
  pub message : String
  -- with the errors of the stacks, which Go joins
  pub error : String
  pub errors : List (String × Error)

pub data Answer : Type 0 where
  -- http.Error, or a status without a body
  plain : ℕ → Answer
  json : ℕ → ScanResponse → Answer
  redirect : String → Answer

abbrev pub status_of : Answer → ℕ
status_of (plain n) = n
status_of (json n r) = n
status_of (redirect to) = 303

abbrev pub blank : ScanResponse
blank = record {
  stacks = [];
  scan = none;
  scans = [];
  active_scan = none;
  message = "";
  error = "";
  errors = [];
}

unfoldable pub normalize_scan_trigger : String → String
normalize_scan_trigger trigger = let t = trim_space trigger in if t == "" then "manual" else t

unfoldable pub contains_stack : String → List String → Bool
contains_stack target [] = false
contains_stack target (s ∷ ss) = let rest = contains_stack target ss in s == target || rest

abbrev pub asked : ScanRequest → Request
asked q = record { trigger = normalize_scan_trigger q.trigger; commit = q.commit; actor = q.actor }

abbrev pub enqueued_text : List String → String
enqueued_text ids = "Enqueued " ++ (decimal (length ids) ++ " stacks")

module _ {S : Type 0} (sc : Scanner S) where
  -- internal/orchestrate: StartAndEnqueue
  unfoldable pub start_and_enqueue : ProjectConfig → Request → Action S (Scan × EnqueueStacksResult)
  start_and_enqueue cfg q = do
    (scan, stacks) ← sc.start_scan cfg q
    result ← sc.enqueue_stacks scan cfg stacks q
    pure (scan, result)

  -- The answer to a project that is locked, with the scan that holds it if it can be read.
  abbrev pub locked_answer : String → Answer → Action S Answer
  locked_answer name otherwise =
      examine (sc.get_active_scan name) (λ _. pure otherwise)
        λ a. pure (
          json 409 (record blank {
            active_scan = some (to_api_scan a);
            error = "Project scan already in progress";
          }))

  abbrev pub none_enqueued : Answer
  none_enqueued = json 409 (record blank { error = "No stacks enqueued (all inflight)" })

  abbrev pub scan_refused : String → Error → Action S Answer
  scan_refused name project_locked = locked_answer name (plain 409)
  scan_refused name no_stacks_enqueued = pure none_enqueued
  scan_refused name _ = pure (plain 500)

  abbrev pub scan_accepted : Scan × EnqueueStacksResult → Action S Answer
  scan_accepted (scan, result) = pure (
      json 200 (record blank {
        stacks = result.stack_ids;
        scan = some (to_api_scan scan);
        message = enqueued_text result.stack_ids;
        errors = result.errors;
      }))

  abbrev pub scan_decoded : String → ProjectConfig → Option ScanRequest → Action S Answer
  scan_decoded name cfg none = pure (plain 400)
  scan_decoded name cfg (some q) =
      examine (start_and_enqueue cfg (asked q)) (scan_refused name) scan_accepted

  abbrev pub scan_found : String → Option ScanRequest → Result ProjectConfig → Action S Answer
  scan_found name body (err e) = pure (plain 404)
  scan_found name body (ok cfg) = scan_decoded name cfg body

  -- `config` is getProjectConfig; `body` is the decoded request, `none` for one that is no JSON.
  unfoldable pub handle_scan_repo :
      (String → Result ProjectConfig) → String → Option ScanRequest → Action S Answer
  handle_scan_repo config name body =
      if not (is_valid_project_name name)
      then pure (plain 400)
      else scan_found name body (config name)

  abbrev pub ui_refused : String → Error → Action S Answer
  ui_refused name project_locked = pure (redirect ("/projects/" ++ name))
  ui_refused name no_stacks_enqueued = pure (redirect ("/projects/" ++ name))
  ui_refused name _ = pure (plain 500)

  abbrev pub ui_found : String → Result ProjectConfig → Action S Answer
  ui_found name (err e) = pure (plain 404)
  ui_found name (ok cfg) =
      examine (start_and_enqueue cfg (record { trigger = "manual"; commit = ""; actor = "" }))
        (ui_refused name) (λ _. pure (redirect ("/projects/" ++ name)))

  unfoldable pub handle_scan_project_ui : (String → Result ProjectConfig) → String → Action S Answer
  handle_scan_project_ui config name =
      if not (is_valid_project_name name) then pure (plain 400) else ui_found name (config name)

  abbrev pub stack_refused : String → Error → Action S Answer
  stack_refused name project_locked =
      locked_answer name (json 409 (record blank { error = "Project scan already in progress" }))
  stack_refused name _ = pure (plain 500)

  abbrev pub stack_not_enqueued : Error → Action S Answer
  stack_not_enqueued no_stacks_enqueued = pure none_enqueued
  stack_not_enqueued e = pure (json 500 blank)

  -- The scan goes on with the one stack, if it was discovered.
  abbrev pub stack_started :
      String → String → ProjectConfig → Request → Scan × List String → Action S Answer
  stack_started name path cfg q (scan, stacks) =
      if not (contains_stack path stacks)
      then (do ignore (sc.fail_scan scan.id name "stack not found"); pure (plain 404))
      else (examine (sc.enqueue_stacks scan cfg (path ∷ []) q) stack_not_enqueued λ result. pure (
          json 200 (record blank {
            stacks = result.stack_ids;
            scan = some (to_api_scan scan);
            message = "Stack enqueued";
          })))

  abbrev pub stack_decoded : String → String → ProjectConfig → Option ScanRequest → Action S Answer
  stack_decoded name path cfg none = pure (plain 400)
  stack_decoded name path cfg (some q) =
      examine (sc.start_scan cfg (asked q)) (stack_refused name)
        (stack_started name path cfg (asked q))

  abbrev pub stack_found :
      String → String → Option ScanRequest → Result ProjectConfig → Action S Answer
  stack_found name path body (err e) =
      pure (json 404 (record blank { error = "Project not configured" }))
  stack_found name path body (ok cfg) = stack_decoded name path cfg body

  unfoldable pub handle_scan_stack :
      (String → Result ProjectConfig) → String → String → Option ScanRequest → Action S Answer
  handle_scan_stack config name path body =
      if not (is_valid_project_name name) || not (is_safe_stack_path path)
      then pure (plain 400)
      else stack_found name path body (config name)

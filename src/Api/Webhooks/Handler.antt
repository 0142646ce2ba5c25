-- ===== src/Api/Webhooks/Handler.antt =====
-- internal/api/webhook.go: what the handler of a push does once its sender is known.
use driftd.Prelude.{
  ℤ, String, Bool, true, false, Option, none, some, List, [], ◌∷◌, ◌++◌, ◌==◌, not, ◌&&◌, ◌||◌,
  if◌then◌else◌, has_prefix, trim_prefix, Result, ok, err, Error, project_locked, project_not_found,
  no_stacks_enqueued, Action, pure, raise, examine, ignore, ◌>>=◌, ◌>>◌,
}
use driftd.Config.{ProjectConfig}
use driftd.Config.Projects.{is_valid_project_name}
use driftd.Queue.Types.{Scan}
use driftd.Orchestrate.Lifecycle.{Request}
use driftd.Api.Dto.{ApiScan, to_api_scan}
use driftd.Api.Scans.{Scanner, Answer, plain, json, blank, enqueued_text}
use driftd.Api.Webhooks.{
  Commit, extract_changed_files, select_stacks_for_changes, project_matches_webhook_branch,
  project_path_matches_webhook_changes,
}

-- The fields that are read.
pub record GitHubPushPayload : Type 0 where
  pub ref : String
  pub name : String
  pub default_branch : String
  pub clone_url : String
  pub ssh_url : String
  pub html_url : String
  pub head_commit : String
  pub pusher : String
  pub commits : List Commit

-- The lookups of helpers.go, and cfg.Webhook.MaxFiles.
pub record Lookups : Type 0 where
  pub by_url : List String → Result (List ProjectConfig)
  pub by_name : String → Result ProjectConfig
  pub max_files : ℤ

-- What the loop has gathered: the scans, the stacks, and whether a project was meant.
pub record Gathered : Type 0 where
  pub scans : List ApiScan
  pub stacks : List String
  pub matched : Bool

abbrev pub nothing : Gathered
nothing = record { scans = []; stacks = []; matched = false }

abbrev pub push_request : GitHubPushPayload → Request
push_request p = record { trigger = "webhook"; commit = p.head_commit; actor = p.pusher }

-- The project is meant by a push of the files to the branch.
abbrev pub meant : GitHubPushPayload → List String → ProjectConfig → Bool
meant p changed cfg =
    project_matches_webhook_branch cfg (trim_prefix "refs/heads/" p.ref) p.default_branch
    && project_path_matches_webhook_changes cfg changed

abbrev pub gather : Scan → List String → Gathered → Gathered
gather scan ids g = record g {
  scans = g.scans ++ (to_api_scan scan ∷ []);
  stacks = g.stacks ++ ids;
}

module _ {S : Type 0} (sc : Scanner S) (p : GitHubPushPayload) (changed : List String) where
  -- An error of EnqueueStacks; without stacks the scan is answered too.
  abbrev pub push_unqueued : Scan → Gathered → Error → Action S Gathered
  push_unqueued scan g no_stacks_enqueued = pure (gather scan [] g)
  push_unqueued scan g e = raise e

  abbrev pub push_targets : ProjectConfig → Gathered → Scan → List String → Action S Gathered
  push_targets cfg g scan [] = do
    ignore (sc.fail_scan scan.id cfg.name "no matching stacks for webhook changes")
    pure g
  push_targets cfg g scan (stack ∷ stacks) =
      examine (sc.enqueue_stacks scan cfg (stack ∷ stacks) (push_request p)) (push_unqueued scan g)
        λ result. pure (gather scan result.stack_ids g)

  abbrev pub push_started : ProjectConfig → Gathered → Scan × List String → Action S Gathered
  push_started cfg g (scan, stacks) =
      push_targets cfg g scan (select_stacks_for_changes stacks changed)

  -- A project that is locked is passed over.
  abbrev pub push_refused : Gathered → Error → Action S Gathered
  push_refused g project_locked = pure g
  push_refused g e = raise e

  abbrev pub push_matched : ProjectConfig → Gathered → Action S Gathered
  push_matched cfg g =
      examine (sc.start_scan cfg (push_request p)) (push_refused g) (push_started cfg g)

  abbrev pub push_project : ProjectConfig → Gathered → Action S Gathered
  push_project cfg g =
      if meant p changed cfg then push_matched cfg (record g { matched = true }) else pure g

  -- The loop over the candidates; an error ends it.
  unfoldable pub push_projects : List ProjectConfig → Gathered → Action S Gathered
  push_projects [] g = pure g
  push_projects (cfg ∷ cfgs) g = push_project cfg g >>= push_projects cfgs

abbrev pub only_scan : List ApiScan → Option ApiScan
only_scan (s ∷ []) = some s
only_scan _ = none

abbrev pub no_scans : List ApiScan → Bool
no_scans [] = true
no_scans (s ∷ ss) = false

abbrev pub push_answer : Gathered → Answer
push_answer g =
    if not g.matched || no_scans g.scans
    then plain 202
    else json 200 (record blank {
      stacks = g.stacks;
      scans = g.scans;
      scan = only_scan g.scans;
      message = enqueued_text g.stacks;
    })

-- The project with the repository's name, if its URL finds none.
abbrev pub named_candidate : Result ProjectConfig → Result (List ProjectConfig)
named_candidate (ok cfg) = ok (cfg ∷ [])
named_candidate (err project_not_found) = ok []
named_candidate (err e) = err e

abbrev pub candidates_or :
    Lookups → GitHubPushPayload → Result (List ProjectConfig) → Result (List ProjectConfig)
candidates_or l p (ok []) =
    if is_valid_project_name p.name then named_candidate (l.by_name p.name) else ok []
candidates_or l p r = r

abbrev pub candidates : Lookups → GitHubPushPayload → Result (List ProjectConfig)
candidates l p = candidates_or l p (l.by_url (p.clone_url ∷ p.ssh_url ∷ p.html_url ∷ []))

module _ {S : Type 0} (sc : Scanner S) (l : Lookups) where
  abbrev pub push_candidates :
      GitHubPushPayload → List String → Result (List ProjectConfig) → Action S Answer
  push_candidates p changed (err e) = pure (plain 500)
  push_candidates p changed (ok []) =
      pure (json 404 (record blank { error = "Project not configured" }))
  push_candidates p changed (ok (cfg ∷ cfgs)) =
      examine (push_projects sc p changed (cfg ∷ cfgs) nothing) (λ e. pure (plain 500))
        λ g. pure (push_answer g)

  abbrev pub push_changed : GitHubPushPayload → List String → Action S Answer
  push_changed p [] = pure (plain 202)
  push_changed p (f ∷ fs) = push_candidates p (f ∷ fs) (candidates l p)

  abbrev pub push_decoded : Option GitHubPushPayload → Action S Answer
  push_decoded none = pure (plain 400)
  push_decoded (some p) =
      if not (has_prefix "refs/heads/" p.ref)
      then pure (plain 202)
      else push_changed p (extract_changed_files p.commits l.max_files)

  -- What follows validateWebhookRequest: `event` is the X-GitHub-Event header, and `payload` the
  -- decoded body, `none` for one that is no JSON.
  unfoldable pub handle_git_hub_webhook : String → Option GitHubPushPayload → Action S Answer
  handle_git_hub_webhook event payload =
      if not (event == "push") then pure (plain 202) else push_decoded payload

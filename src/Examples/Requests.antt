-- ===== src/Examples/Requests.antt =====
-- The theorems on the requests that start scans, at concrete data.
use driftd.Prelude.{
  ◌≤◌, ◌↔◌, ◌+◌, ◌<◌, true, some, none, [], ◌∷◌, ◌≡◌, refl, inr, pos, ok, err, external, result,
  arith, trim_space, text_length,
}
use driftd.Config.{ProjectConfig}
use driftd.Config.Projects.{is_valid_project_name}
use driftd.Queue.Types.{Scan, scan_from_hash}
use driftd.Queue.Store.{online}
use driftd.Queue.Scans.{new_scan}
use driftd.Queue.Lookups.{get_active_scan, get_scan}
use driftd.Orchestrate.{trigger_priority}
use driftd.Api.Dto.{to_api_scan}
use driftd.Api.Scans.{
  Scanner, ScanRequest, json, blank, asked, handle_scan_repo, normalize_scan_trigger,
}
use driftd.Api.Scans.Traces.{logged, Settled}
use driftd.Api.Scans.Locked.{handle_scan_repo-locked}
use driftd.Api.Streams.{build_scan_summary}
use driftd.Api.Streams.Progress.{build_scan_summary-progress}
use driftd.Api.Orchestrated.{Surroundings, queue_scanner}
use driftd.Api.Webhooks.{extract_changed_files, select_stacks_for_changes}
use driftd.Api.Webhooks.Handler.{Lookups, GitHubPushPayload, handle_git_hub_webhook}
use driftd.Api.Webhooks.Handling.{Meant, handle_git_hub_webhook-Settled}
use driftd.Queue.Opened.{steps}
use driftd.Examples.Data.{busy, fields}

-- A scanner without a state: StartScan answers one scan with two stacks.
abbrev scan : Scan
scan = new_scan "b:1" "b" "webhook" "c" "me" (pos 0) 1

abbrev scanner : Scanner Unit
scanner = record {
  start_scan = λ cfg q s. (ok (scan, "x" ∷ "y" ∷ []), s);
  enqueue_stacks = λ sc cfg stacks q s. (ok (record { stack_ids = stacks; errors = [] }), s);
  fail_scan = λ id name msg s. (ok tt, s);
  get_active_scan = λ name s. (err external, s);
}

abbrev config : ProjectConfig
config = record {
  name = "infra";
  url = "https://host/b";
  branch = "";
  ignore_paths = none;
  schedule = "";
  cancel_inflight_on_new_trigger = none;
  git = none;
  projects = [];
  root_path = "";
  clone_url = "https://host/b";
}

abbrev lookups : Lookups
lookups = record { by_url = λ urls. ok (config ∷ []); by_name = λ n. ok config; max_files = pos 0 }

abbrev push : GitHubPushPayload
push = record {
  ref = "refs/heads/main";
  name = "b";
  default_branch = "main";
  clone_url = "https://host/b";
  ssh_url = "";
  html_url = "";
  head_commit = "c";
  pusher = "me";
  commits = record { added = "y/main.tf" ∷ []; modified = []; removed = [] } ∷ [];
}

handle_git_hub_webhook-Settled_example :
    Settled
      (Meant scanner push (extract_changed_files push.commits lookups.max_files))
      (λ stacks.
        select_stacks_for_changes stacks (extract_changed_files push.commits lookups.max_files))
      (handle_git_hub_webhook (logged scanner) lookups "push" (some push) (tt, [])).1.1
handle_git_hub_webhook-Settled_example =
    handle_git_hub_webhook-Settled scanner lookups "push" push tt

abbrev request : ScanRequest
request = record { trigger = "scheduled"; commit = ""; actor = "" }

abbrev around : Surroundings
around = record {
  outside = λ p. record {
    auth = ok tt;
    clone_url = "git";
    url_hash = "h";
    git = err external;
    tries = 1;
    renewals = 0;
    discover = ok ("a" ∷ []);
    detect = err external;
    said = λ e. "failed";
  };
  clock = λ p. record { id_at = 5; started = 5; new_id_at = 6; superseded = 6; ended = 7 };
  salt = λ s. 1;
  now = 8;
  lock_ttl = 9;
  clone_ttl = 9;
  retry_once = true;
  said = λ e. "failed";
}

abbrev active : Scan
active = scan_from_hash fields

active_read : result (get_active_scan "infra") (online busy) ≡ ok active
unfolding steps get_active_scan get_scan
active_read = refl

outranked : trigger_priority (asked request).trigger < trigger_priority active.trigger
unfolding trigger_priority scan_from_hash normalize_scan_trigger trim_space
outranked = omega arith

named : is_valid_project_name "infra" ≡ true
unfolding is_valid_project_name text_length
named = refl

handle_scan_repo-locked_example :
    handle_scan_repo (queue_scanner around) (λ n. ok config) "infra" (some request) (online busy)
    ≡ (
      ok (
          json 409 (record blank {
            active_scan = some (to_api_scan active);
            error = "Project scan already in progress";
          })),
      online busy,
    )
handle_scan_repo-locked_example =
    handle_scan_repo-locked around (λ n. ok config) config request busy active {owner = "infra:1"}
      named refl refl active_read (inr outranked)

-- Two stacks, one done and one failed.
abbrev over : Scan
over = record scan { completed = pos 1; failed = pos 1; total = pos 2 }

build_scan_summary-progress_example :
    ((build_scan_summary over).progress_pct ≤ 100)
    × (((build_scan_summary over).progress_pct ≡ 100) ↔ ((0 < 1 + 1) × (0 + 0 ≡ 0)))
build_scan_summary-progress_example = build_scan_summary-progress over 0 0 1 1 refl refl refl
